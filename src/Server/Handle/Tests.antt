-- ===== src/Server/Handle/Tests.antt =====
-- The handle of a server on small inputs.
use Prim.Native.String.{String}
use shared_ws.Prelude.{ℕ, ◌≡◌, refl, Option, none, some, [], ◌∷◌}
use shared_ws.Types.Basic.{ok, err}
use shared_ws.Server.Config.{WsServerConfig, WsServerRetryPolicy, new}
use shared_ws.Server.Lifecycle.{
  Server, binds, publishes, clients_gone, run, start, starting, listening, stopped, terminal,
  is_final,
}
use shared_ws.Server.Handle.{
  dispatch, wait_for_status, settled, status_timeout, times_out, sender_gone,
}
use shared_ws.Server.Handle.Dispatch.{Answers, dispatch-Answers}

abbrev config : WsServerConfig String (Unit {0})
config = new "[::1]:8080" tt

abbrev one_try : WsServerRetryPolicy
one_try = record { initial_backoff = 100; max_backoff = 150; max_attempts = some 1 }

-- The first two reads come between the two writes of a terminal end.
abbrev at_first : Server String
at_first = run config one_try none (start config one_try none) (binds (err "in use") ∷ [])

abbrev at_second : Server String
at_second = run config one_try none at_first []

abbrev at_third : Server String
at_third = run config one_try none at_second (publishes ∷ clients_gone ∷ [])

abbrev to_two : ℕ → Option ℕ
to_two command = some 2

dispatch-Answers_example :
    Answers at_first.shared at_second.shared at_third.shared
      (to_two 7)
      (dispatch to_two at_first.shared at_second.shared at_third.shared 7)
dispatch-Answers_example =
    dispatch-Answers config one_try none to_two 7 (binds (err "in use") ∷ []) []
      (publishes ∷ clients_gone ∷ []) at_first at_second at_third refl refl refl

wait_reaches : wait_for_status listening 9 starting (listening ∷ []) sender_gone ≡ ok tt
unfolding wait_for_status is_final
wait_reaches = refl

-- A server that has stopped is not waited for.
wait_settles :
    wait_for_status listening 9 starting (stopped ∷ []) (times_out stopped)
    ≡ err (settled listening stopped)
unfolding wait_for_status is_final
wait_settles = refl

wait_times_out :
    wait_for_status terminal 9 starting (listening ∷ []) (times_out listening)
    ≡ err (status_timeout terminal listening 9)
unfolding wait_for_status is_final
wait_times_out = refl
