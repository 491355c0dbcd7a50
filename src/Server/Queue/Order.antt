-- ===== src/Server/Queue/Order.antt =====
-- What a module's queue promises the code above it: synchronous requests are put in front
-- (`queue_cas`), asynchronous ones behind (`queue_put`), and `queue_get` serves the front.
use moc.Shared.{List, [], ◌∷◌, ◌++◌, Option, none, some, Bool, if◌then◌else◌}

module _ {ℓ} {A : Type ℓ} where
  -- The last lines of `put_in_queue_long` in server/parse.c: where an entry goes.
  unfoldable pub enqueue : Bool → A → List A → List A
  enqueue sync e xs = if sync then e ∷ xs else xs ++ e ∷ []

  unfoldable pub dequeue : List A → Option A × List A
  dequeue [] = (none, [])
  dequeue (x ∷ xs) = (some x, xs)
