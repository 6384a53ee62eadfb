-- ===== src/Transport/Connect.antt =====
-- What a connection attempt needs of the gate on live websockets.
use shared_ws.Prelude.{◌≡◌, refl, ◌⊎◌, inl, inr, Option, List, [], ◌∷◌, arith, ◌↔◌}
use Prim.Native.String.{String}
use shared_ws.Types.Basic.{Result, ok, err, WebSocketError}
use shared_ws.FixturePolicy.{Host, WsFixtureRequirement, ensure_live_ws_allowed}
use shared_ws.Transport.{Dial, WebSocketBufferConfig, build_ws_config, dial_if, connect}

Result-cases : {E A : Type 0} (r : Result E A) → ((a : A) × (r ≡ ok a)) ⊎ ((e : E) × (r ≡ err e))
Result-cases (ok a) = inl (a, refl)
Result-cases (err e) = inr (e, refl)

module _ {Json Connector Socket : Type 0} (host : Host Json)
    (dial : Dial Connector → Result String Socket) where
  dial_if-dials :
      (gate : Result WebSocketError (Unit {0})) (d : Dial Connector)
      → ((dial_if host dial gate d).1 ≡ d ∷ []) ↔ (gate ≡ ok tt)
  dial_if-dials (err e) d = ground arith
  dial_if-dials (ok _) d = elim (Result-cases (dial d)) [
    | inl (s, e) ↦ ground (arith, e)
    | inr (x, e) ↦ ground (arith, e)
  ]

  -- The network is reached exactly when the gate lets the connection through, and then once, with
  -- the limits that are configured.
  pub connect-dials :
      (registry : List WsFixtureRequirement) (connector : Option Connector) (url : String)
      (buffers : WebSocketBufferConfig)
      → ((connect host dial registry connector url buffers).1
          ≡ record { url = url; config = build_ws_config buffers; connector = connector } ∷ [])
        ↔ (ensure_live_ws_allowed host registry ≡ ok tt)
  unfolding connect
  connect-dials registry connector url buffers =
      dial_if-dials (ensure_live_ws_allowed host registry) _
