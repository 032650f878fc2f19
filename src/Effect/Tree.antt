-- ===== src/Effect/Tree.antt =====
-- Trees of calls with `?`: `throw` ends the handler with an error, as an early return does.
use zfs_evacuation_controlle.Base.{String, Option, none, some}
use zfs_evacuation_controlle.Effect.Calls.{
  Call, Value, Error, kube, other, Answer, ok, err, Sense, Reply,
}

pub data M {ℓ} (A : Type ℓ) : Type ℓ where
  ret : A → M A
  throw : Error → M A
  call : (c : Call) → (Answer (Value c) → M A) → M A
  sense : (q : Sense) → (Reply q → M A) → M A

infixl 5 ◌>>=◌ ◌>>◌
abbrev pub ◌>>=◌ {ℓ κ} : {A : Type ℓ} {B : Type κ} → M A → (A → M B) → M B
ret a >>= f = f a
throw e >>= f = throw e
call c k >>= f = call c (λ r. k r >>= f)
sense q k >>= f = sense q (λ r. k r >>= f)

abbrev pub ◌>>◌ {ℓ κ} : {A : Type ℓ} {B : Type κ} → M A → M B → M B
m >> k = m >>= λ _. k

-- The answer as it is, for a caller that tells errors apart.
abbrev pub try : (c : Call) → M (Answer (Value c))
try c = call c ret

abbrev pub lift {ℓ} : {A : Type ℓ} → Answer A → M A
lift (ok a) = ret a
lift (err e) = throw (kube e)

-- `….await?`
abbrev pub ask : (c : Call) → M (Value c)
ask c = call c lift

abbrev pub local : (q : Sense) → M (Reply q)
local q = sense q ret

-- `.ok_or_else(|| anyhow!(msg))?`
abbrev pub require {ℓ} : {A : Type ℓ} → Option A → String → M A
require none msg = throw (other msg)
require (some a) msg = ret a

-- How a handler ends, for a caller that looks: `match f(…).await { Ok(a) => …, Err(e) => … }`.
pub data Outcome {ℓ} (A : Type ℓ) : Type ℓ where
  done : A → Outcome A
  raised : Error → Outcome A

abbrev pub catch {ℓ} : {A : Type ℓ} → M A → M (Outcome A)
catch (ret a) = ret (done a)
catch (throw e) = ret (raised e)
catch (call c k) = call c (λ r. catch (k r))
catch (sense q k) = sense q (λ r. catch (k r))
