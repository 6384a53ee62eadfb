-- ===== src/Server/Clearing.antt =====
-- What is left of a server when the tasks of its connections have ended.
use shared_ws.Prelude.{ℕ, ◌≡◌, ◌∙◌, refl, ap, Option, List, [], ◌∷◌, arith, length}
use shared_ws.Server.Config.{WsServerConfig, WsServerRetryPolicy}
use shared_ws.Server.Lifecycle.{Server, ServerShared, end_connection, end_connections}

-- What the end of a connection does not touch.
abbrev pub IsSame : {A : Type 0} → ServerShared A → ServerShared A → Type 0
IsSame s t =
    (t.status ≡ s.status) × (t.terminal_error ≡ s.terminal_error) × (t.shutdown ≡ s.shutdown)

module _ {A W : Type 0} (config : WsServerConfig A W) (retry : WsServerRetryPolicy)
    (fault : Option ℕ) where
  end_connection-IsSame :
      (s : Server A) (id : ℕ) → IsSame s.shared (end_connection config retry fault s id).shared
  unfolding end_connection
  end_connection-IsSame s id = ground arith

  pub end_connections-IsSame :
      (s : Server A) (ids : List ℕ)
      → IsSame s.shared (end_connections config retry fault s ids).shared
  unfolding end_connections
  end_connections-IsSame s [] = (refl, refl, refl)
  end_connections-IsSame s (id ∷ ids) =
      let one = end_connection-IsSame s id in
      let more = end_connections-IsSame (end_connection config retry fault s id) ids in
      (more.0 ∙ one.0, more.1 ∙ one.1, more.2 ∙ one.2)

  first_ends :
      (s : Server A) (id : ℕ) (ids : List ℕ)
      → s.clients ≡ id ∷ ids
      → s.shared.active ≡ length s.clients
      → ((end_connection config retry fault s id).clients ≡ ids)
        × ((end_connection config retry fault s id).shared.active
            ≡ length (end_connection config retry fault s id).clients)
  unfolding end_connection
  first_ends s id ids e a = ground (arith, e, a)

  -- When the tasks of all the clients end, no client and no slot is left.
  pub end_connections-clears :
      (s : Server A) (ids : List ℕ)
      → s.clients ≡ ids
      → s.shared.active ≡ length s.clients
      → ((end_connections config retry fault s ids).clients ≡ [])
        × ((end_connections config retry fault s ids).shared.active ≡ 0)
  unfolding end_connections
  end_connections-clears s [] e a = (e, a ∙ ap length e)
  end_connections-clears s (id ∷ ids) e a =
      let one = first_ends s id ids e a in
      end_connections-clears (end_connection config retry fault s id) ids one.0 one.1
