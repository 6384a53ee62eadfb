-- ===== src/Server/Drained.antt =====
-- What the end of a drain leaves of a server.
use shared_ws.Prelude.{ℕ, ◌≡◌, refl, ◌∙◌, Option, arith, length}
use shared_ws.Server.Config.{WsServerConfig, WsServerRetryPolicy}
use shared_ws.Server.Lifecycle.{
  ManagedWsServerStatus, stopped, ServerShared, set_status, draining, end_connections, finished,
  Server, clients_gone, step_at,
}
use shared_ws.Server.Endings.{IsRunning, IsStopped, set_status_stopped}
use shared_ws.Server.Budget.{set_status-active}
use shared_ws.Server.Clearing.{end_connections-IsSame, end_connections-clears}

abbrev pub HasStopped : {A : Type 0} → Server A → Type 0
HasStopped s = (s.phase ≡ finished) × IsStopped s.shared × (s.shared.active ≡ 0)

pub set_status-shutdown :
    {A : Type 0} (s : ServerShared A) (status : ManagedWsServerStatus)
    → (set_status s status).shutdown ≡ s.shutdown
unfolding set_status
set_status-shutdown s status = ground arith

module _ {A W : Type 0} (config : WsServerConfig A W) (retry : WsServerRetryPolicy)
    (fault : Option ℕ) where
  -- A drain that ends leaves no slot taken.
  pub drained-HasStopped :
      (s : Server A)
      → IsRunning s.shared
      → s.shared.active ≡ length s.clients
      → HasStopped (step_at config retry fault draining s clients_gone)
  unfolding step_at
  drained-HasStopped s h b =
      let ended = end_connections config retry fault s s.clients in
      let same = end_connections-IsSame config retry fault s s.clients in
      let none_left = end_connections-clears config retry fault s s.clients refl b in
      (
        refl,
        set_status_stopped ended.shared (same.1 ∙ h.1),
        set_status-active ended.shared stopped ∙ none_left.1,
      )
