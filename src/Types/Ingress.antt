-- ===== src/Types/Ingress.antt =====
-- src/core/types.rs: `WsIngress`, which decodes frames where they are read, and its default.
use Prim.Native.String.{String}
use shared_ws.Prelude.{List}
use shared_ws.Frame.{WsFrame}
use shared_ws.Types.Basic.{WsDisconnectCause}

pub data WsIngressAction (M : Type 0) : Type 0 where
  ignore : WsIngressAction M
  emit : M → WsIngressAction M
  emit_batch : List M → WsIngressAction M
  forward : WsFrame → WsIngressAction M
  reconnect shutdown : String → WsIngressAction M

-- Over the state `St` of an ingress.
pub record Ingress (St M : Type 0) : Type 0 where
  pub on_open : St → St
  pub on_frame : St → WsFrame → WsIngressAction M × St
  pub on_disconnect : St → WsDisconnectCause → St

-- `ForwardAllIngress`, with the methods that the trait has by default.
abbrev pub forward_all : {M : Type 0} → Ingress (Unit {0}) M
forward_all = record {
  on_open = λ st. st;
  on_frame = λ st frame. (forward frame, st);
  on_disconnect = λ st cause. st;
}
