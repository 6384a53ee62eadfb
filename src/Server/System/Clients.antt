-- ===== src/Server/System/Clients.antt =====
-- The clients that the lifecycle of a server keeps, beside the tasks.
use Prim.Native.String.{String}
use shared_ws.Prelude.{
  ℕ, ◌+◌, ◌<◌, ◌≡◌, refl, Bool, true, false, Option, none, some, List, [], ◌∷◌, ◌++◌, arith, length,
  ◌==◌, if◌then◌else◌,
}
use shared_ws.Types.Basic.{Result, ok, err}
use shared_ws.Server.Config.{WsServerConfig, WsServerRetryPolicy}
use shared_ws.Server.Lifecycle.{
  Phase, binding, accepting, waiting, publishing, publishes, Server, ServerShared, Event,
  requests_shutdown, sees_shutdown, binds, accepts, sleeps, connection_ends, clients_gone, without,
  contains, try_acquire, admit_connection, enter_accept, on_accept, on_bind, on_failure,
  leave_lifecycle, bound, step, step_at, IoError,
}
use shared_ws.Server.Budget.{IsBudgeted, step_at-IsBudgeted}
use shared_ws.Server.System.{Task, IsPlain, joined}

abbrev pub ids : {St A C : Type 0} → List (Task St A C) → List ℕ
ids [] = []
ids (t ∷ tasks) = t.context.connection_id ∷ ids tasks

-- How often a number is in a list.
abbrev pub count : ℕ → List ℕ → ℕ
count n [] = 0
count n (x ∷ xs) = (if x == n then 1 else 0) + count n xs

-- The clients of the server are its tasks, in any order.
abbrev pub IsMatched : {St A C : Type 0} → List ℕ → List (Task St A C) → Type 0
IsMatched clients tasks = (n : ℕ) → count n (ids tasks) ≡ count n clients

contains-count : (n : ℕ) (xs : List ℕ) → 0 < count n xs → contains n xs ≡ true
contains-count n [] l = ground arith
contains-count n (x ∷ xs) l = ground (arith, contains-count n xs)

count-without :
    (m n : ℕ) (xs : List ℕ)
    → contains n xs ≡ true
    → (if n == m then 1 else 0) + count m (without n xs) ≡ count m xs
count-without m n [] c = ground arith
count-without m n (x ∷ xs) c = ground (arith, count-without m n xs)

module _ {St A C : Type 0} where
  count-ids-append :
      (n : ℕ) (xs ys : List (Task St A C))
      → count n (ids (xs ++ ys)) ≡ count n (ids xs) + count n (ids ys)
  count-ids-append n [] ys = omega arith
  count-ids-append n (x ∷ xs) ys = ground (arith, count-ids-append n xs ys)

abbrev pub admitted : {A : Type 0} → Bool → Option (ServerShared A) → ℕ → List ℕ → List ℕ
admitted true slot id clients = clients
admitted false none id clients = clients
admitted false (some _) id clients = id ∷ clients

module _ {A W : Type 0} (config : WsServerConfig A W) (retry : WsServerRetryPolicy)
    (fault : Option ℕ) where
  on_failure-clients :
      (s : Server A) (failure : String)
      → (on_failure config retry fault s failure).clients ≡ s.clients
  unfolding on_failure
  on_failure-clients s failure = ground arith

  enter_accept-clients :
      (s : Server A) (n : ℕ) → (enter_accept config retry fault s n).clients ≡ s.clients
  unfolding enter_accept
  enter_accept-clients s n = ground arith

  on_bind-clients :
      (s : Server A) (r : Result String (Option String))
      → (on_bind config retry fault s r).clients ≡ s.clients
  unfolding on_bind
  on_bind-clients s (err failure) = on_failure-clients s failure
  on_bind-clients s (ok none) = enter_accept-clients (bound config retry fault s) 0
  on_bind-clients s (ok (some failure)) = on_failure-clients (bound config retry fault s) failure

  on_accept_error-clients :
      (s : Server A) (a : ℕ) (e : IoError)
      → (on_accept config retry fault s a (err e)).clients ≡ s.clients
  unfolding on_accept
  on_accept_error-clients s a e =
      ground (arith, enter_accept-clients s a, on_failure-clients s e.text)

  pub step_at-clients :
      (p : Phase) (s : Server A) (e : Event)
      → IsPlain e
      → (step_at config retry fault p s e).clients ≡ s.clients
  unfolding step_at leave_lifecycle
  step_at-clients p s (accepts (ok r)) q = absurd q
  step_at-clients p s (connection_ends id) q = absurd q
  step_at-clients p s clients_gone q = absurd q
  step_at-clients p s requests_shutdown q = refl
  step_at-clients binding s (binds r) q = ground (arith, on_bind-clients s r)
  step_at-clients (accepting a) s (accepts (err e)) q =
      ground (arith, on_accept_error-clients s a e)
  step_at-clients (accepting a) s sees_shutdown q = ground arith
  step_at-clients (waiting d) s sees_shutdown q = ground arith
  step_at-clients (waiting d) s sleeps q = refl
  step_at-clients p s sleeps q = ground arith
  step_at-clients publishing s publishes q = refl
  step_at-clients p s e q = refl

  -- The clients once a socket was accepted.
  pub accepted-clients :
      (s : Server A) (a : ℕ)
      → (step_at config retry fault (accepting a) s (accepts (ok tt))).clients
        ≡ admitted s.shared.shutdown
            (try_acquire s.shared config.max_connections)
            s.shared.next_connection_id
            s.clients
  unfolding step_at on_accept admit_connection leave_lifecycle
  accepted-clients s a =
      ground (arith, enter_accept-clients (admit_connection config retry fault s) (a + 1))

  pub step-IsBudgeted :
      (s : Server A) (e : Event)
      → IsBudgeted config retry fault s
      → IsBudgeted config retry fault (step config retry fault s e)
  unfolding step
  step-IsBudgeted s e b = step_at-IsBudgeted config retry fault s.phase s e b

module _ {St A C : Type 0} where
  -- The tasks and the clients, of which the last one to come may be new.
  pub joined-IsMatched :
      (down : Bool) (slot : Option (ServerShared A)) (t : Task St A C) (tasks : List (Task St A C))
      (clients : List ℕ)
      → IsMatched clients tasks
      → IsMatched (admitted down slot t.context.connection_id clients) (joined down slot t tasks)
  joined-IsMatched true slot t tasks clients m n = m n
  joined-IsMatched false none t tasks clients m n = m n
  joined-IsMatched false (some _) t tasks clients m n = omega (arith, m n)

  pub joined-length :
      (down : Bool) (slot : Option (ServerShared A)) (t : Task St A C) (tasks : List (Task St A C))
      (clients : List ℕ)
      → length tasks ≡ length clients
      → length (joined down slot t tasks)
        ≡ length (admitted down slot t.context.connection_id clients)
  joined-length true slot t tasks clients l = l
  joined-length false none t tasks clients l = l
  joined-length false (some _) t tasks clients l = omega (arith, l)

  -- A task that is there is a client.
  pub member-contains :
      (before after : List (Task St A C)) (t : Task St A C) (clients : List ℕ)
      → IsMatched clients (before ++ t ∷ after)
      → contains t.context.connection_id clients ≡ true
  member-contains before after t clients m =
      let id = t.context.connection_id in
      contains-count id clients (ground (arith, m id, count-ids-append id before (t ∷ after)))

  pub without-IsMatched :
      (before after : List (Task St A C)) (t : Task St A C) (clients : List ℕ)
      → IsMatched clients (before ++ t ∷ after)
      → IsMatched (without t.context.connection_id clients) (before ++ after)
  without-IsMatched before after t clients m n = ground (
    arith,
    m n,
    count-ids-append n before (t ∷ after),
    count-ids-append n before after,
    count-without n t.context.connection_id clients (member-contains before after t clients m),
  )

  pub same_id-IsMatched :
      (before after : List (Task St A C)) (t t' : Task St A C) (clients : List ℕ)
      → t'.context ≡ t.context
      → IsMatched clients (before ++ t ∷ after)
      → IsMatched clients (before ++ t' ∷ after)
  same_id-IsMatched before after t t' clients e m n =
      ground (
        arith,
        e,
        m n,
        count-ids-append n before (t ∷ after),
        count-ids-append n before (t' ∷ after),
      )
