-- ===== src/Ws/Manager/SendRequest.antt =====
-- app/ws/manager.py: `send_request` from its first line to its `finally`.
use dataveda_nifty_agent.Prelude.{
  ℕ, String, ◌≡◌, refl, Bool, true, Option, none, some, List, [], ◌∷◌, ◌++◌, arith, All, eq_refl,
  if◌then◌else◌,
}
use dataveda_nifty_agent.Python.Json.{Fields}
use dataveda_nifty_agent.Python.Dict.{get, get-pop}
use dataveda_nifty_agent.Ws.Manager.{
  Manager, Reply, replied, timed_out, send_failed, open_request, poll, resolve, expire,
  close_request,
}
use dataveda_nifty_agent.Ws.Manager.Requests.{ManagerValid, Call, resolves, apply, run}
use dataveda_nifty_agent.Ws.Manager.Correlation.{IsOther, request_gets_its_reply}

-- How the wait on a future ends, with the manager as it is by then: with a result that is there, and
-- else at the deadline, which cancels the future.
abbrev pub end_wait : ℕ → Manager → Option Fields → Reply × Manager
end_wait f m (some result) = (replied result, m)
end_wait f m none = (timed_out, expire f m)

abbrev pub close_after : String → Reply × Manager → Option Reply × Manager
close_after request_id (reply, m) = (some reply, close_request request_id m)

-- `sent` says whether `send_json` succeeded, and `during` are the calls of other tasks while the
-- request waits, up to its result or its deadline.
abbrev pub after_open :
    String
    → (sent : Bool) (during : List Call) → Manager
    → Option (ℕ × ℕ × Manager)
    → Option Reply × Manager
after_open request_id sent during m none = (none, m)
after_open request_id sent during m (some (ws, f, begun)) = close_after request_id (
    if sent
    then end_wait f (run begun during) (poll f (run begun during))
    else (send_failed, run begun during))

-- `none` is BridgeOfflineError.
unfoldable pub send_request :
    (tenant_id request_id : String) (sent : Bool) (during : List Call)
    → Manager
    → Option Reply × Manager
send_request tenant_id request_id sent during m =
    after_open request_id sent during m (open_request tenant_id request_id m)

run-append : (m : Manager) (a b : List Call) → run m (a ++ b) ≡ run (run m a) b
unfolding run
run-append m [] b = refl
run-append m (c ∷ a) b = run-append (apply m c) a b

run-resolves :
    (m : Manager) (r : String) (result : Fields) (before after : List Call)
    → run m (before ++ resolves r result ∷ after) ≡ run (resolve r result (run m before)) after
unfolding run apply
run-resolves m r result before after = run-append m before (resolves r result ∷ after)

closed-pending : (r : String) (m : Manager) → get r (close_request r m).pending ≡ none
unfolding close_request
closed-pending r m = ground (arith, get-pop r r m.pending, eq_refl r)

late-ignored :
    (r : String) (x : Fields) (m : Manager) → resolve r x (close_request r m) ≡ close_request r m
unfolding resolve
late-ignored r x m = rw (closed-pending r m) refl

module _ (tenant_id request_id : String) (m begun : Manager) (ws f : ℕ)
    (opened : open_request tenant_id request_id m ≡ some (ws, f, begun)) where
  -- However a request of a connected tenant ends, a result, a timeout or a failed send, a reply
  -- for its id that comes after it changes nothing in the manager.
  pub send_request-late_ignored :
      (sent : Bool) (during : List Call) (late : Fields)
      → resolve request_id late (send_request tenant_id request_id sent during m).1
        ≡ (send_request tenant_id request_id sent during m).1
  unfolding send_request
  send_request-late_ignored sent during late = rw opened (late-ignored request_id late _)

  -- For a valid manager, a connected tenant and a message that was sent: a request during which
  -- only calls about other requests are made times out, and one for which a result comes after
  -- such calls ends with that result, whatever calls follow up to its end.
  pub send_request-replies :
      ManagerValid m
      → (before after : List Call) (result : Fields) → All (IsOther request_id f) before
      → ((send_request tenant_id request_id true before m).0 ≡ some timed_out)
        × ((send_request tenant_id request_id true
              (before ++ resolves request_id result ∷ after)
              m).0
            ≡ some (replied result))
  unfolding send_request
  send_request-replies v before after result others =
      let replies =
        request_gets_its_reply tenant_id request_id m ws f begun v opened before after result
          others in
      (
        rw opened (rw (replies.0) refl),
        rw opened (rw (run-resolves begun request_id result before after) (rw (replies.1) refl)),
      )
