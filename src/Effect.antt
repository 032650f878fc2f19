-- ===== src/Effect.antt =====
-- The controller as a client of the API server. A handler is a tree of calls: the server, which is
-- no code of the repository, answers each call as it likes, with a value or an error, so what holds
-- of a tree on every branch holds whatever the server, the node agents, the users and other
-- replicas do between two calls. A handler that crashes stops somewhere on such a branch.
mod Calls
mod Tree
mod Watch
mod Results
unfoldable pub use Calls.*
unfoldable pub use Tree.*
unfoldable pub use Watch.*
unfoldable pub use Results.*
