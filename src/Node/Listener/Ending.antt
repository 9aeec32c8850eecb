-- ===== src/Node/Listener/Ending.antt =====
-- pkg/node/listener.go: how `handleConn` ends: the fallback, the backend, and what is left in the
-- approvals.
use nitella.Base.{
  ℕ, String, Bool, true, false, not, ◌&&◌, Option, none, some, if◌then◌else◌, str_eq,
}
use nitella.Node.GlobalRules.{ActionType, block, mock}
use nitella.Node.Approval.Manager.{ApprovalManager, cancel}
use nitella.Node.Approval.Manager.Stored
use nitella.Node.Listener.Decision.{Global, refuses, lifts, silent, Applicant, Approved}

pub data MockPreset : Type 0 where
  unset : MockPreset
  ssh_secure : MockPreset
  ssh_tarpit : MockPreset
  http_403 : MockPreset
  http_404 : MockPreset
  http_401 : MockPreset
  redis_secure : MockPreset
  mysql_secure : MockPreset
  mysql_tarpit : MockPreset
  rdp_secure : MockPreset
  telnet_secure : MockPreset
  raw_tarpit : MockPreset

pub data FallbackAction : Type 0 where
  undefined : FallbackAction
  close : FallbackAction
  mock_fallback : FallbackAction

pub record Settings : Type 0 where
  pub default_backend : String
  pub default_mock : MockPreset
  pub fallback_action : FallbackAction
  pub fallback_mock : MockPreset

-- A preset that is set.
abbrev pub set_preset : MockPreset → Option MockPreset
set_preset unset = none
set_preset preset = some preset

abbrev pub or_preset : Option MockPreset → Option MockPreset → Option MockPreset
or_preset none other = other
or_preset (some preset) other = some preset

-- `handleFallback`: the mock that answers, `none` if the connection is closed.
unfoldable pub fallback : FallbackAction → Settings → Option MockPreset
fallback close s = none
fallback mock_fallback s = or_preset (set_preset s.fallback_mock) (set_preset s.default_mock)
fallback undefined s = elim (set_preset s.default_mock) [
  | none ↦ none
  | some preset ↦ or_preset (set_preset s.fallback_mock) (some preset)
]

-- What becomes of a connection; `fell_back` holds the reason and the mock that answers.
pub data Ending : Type 0 where
  dropped : Ending
  fell_back : String → Option MockPreset → Ending
  mocked : Ending
  forwarded : String → Ending

abbrev pub backend_of : String → String → String
backend_of target default = if not (str_eq target "") then target else default

-- The part of `handleConn` after the decision; `dialed` tells whether the backend answers.
unfoldable pub ending : ActionType → String → Settings → Bool → Ending
unfolding fallback
ending block target s dialed = fell_back "block" (fallback s.fallback_action s)
ending mock target s dialed = mocked
ending action target s dialed =
    let backend = backend_of target s.default_backend in
    if str_eq backend ""
    then fell_back "empty-backend" (fallback s.fallback_action s)
    else if dialed
    then forwarded backend
    else fell_back "dial-failed" (fallback s.fallback_action s)

-- A connection that the global rules refuse is closed before all else.
unfoldable pub handle : Global → ActionType → String → Settings → Bool → Ending
unfolding ending
handle refuses action target s dialed = dropped
handle lifts action target s dialed = ending action target s dialed
handle silent action target s dialed = ending action target s dialed

abbrev pub is_forwarded : Ending → Bool
is_forwarded (forwarded backend) = true
is_forwarded dropped = false
is_forwarded (fell_back reason preset) = false
is_forwarded mocked = false

-- What the handler still does to the approvals: after the copying, the bytes and the connection of an
-- entry; at its very end, the request.
unfoldable pub settle : Approved → Applicant → Ending → ℕ → ℕ → ApprovalManager
settle r a end bytes_in bytes_out =
    let am =
      (if r.has_entry && is_forwarded end
        then Stored.remove_conn_id
            (Stored.update_bytes r.manager a.source_ip a.rule_id a.session bytes_in bytes_out)
            a.source_ip a.rule_id a.session a.conn_id
        else r.manager) in
    if r.pending then cancel am a.conn_id else am
