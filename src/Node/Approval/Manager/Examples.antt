-- ===== src/Node/Approval/Manager/Examples.antt =====
-- pkg/node/approval.go: the theorems on requests at concrete inputs.
use nitella.Base.{◌≡◌, refl, true, false, some, [], ◌∷◌}
use nitella.Base.Map
use nitella.Base.Map.{
  Map, lookup-insert, lookup-erase, lookup-retain, lookup-insert_self, lookup-insert_ne,
  lookup-erase_self, lookup-erase_ne,
}
use nitella.Node.Approval.Cache
use nitella.Node.Approval.Cache.{no_geo}
use nitella.Node.Approval.Manager.{
  unspecified, connection_only, ApprovalRequestMeta, ApprovalManager, new_manager, reserve, cancel,
  begin, resolve_with_retention,
}
use nitella.Node.Approval.Manager.Slots.{new, reserved, resolved, Accounted, Reach-Accounted}
use nitella.Node.Approval.Manager.Decisions.{
  result_of, decision, request, resolve_with_retention_first,
}

program : Unit {0}
unfolding new_manager reserve cancel begin resolve_with_retention Map.lookup Map.insert Map.erase
    Cache.new_cache
program = tt

abbrev meta : ApprovalRequestMeta
meta = record {
  proxy_id = "p";
  source_ip = "10.0.0.7";
  dest_addr = "d";
  rule_id = "r";
  geo = no_geo;
}

-- one request waits
abbrev waiting : ApprovalManager
waiting = record {
  requests = ("c1", request meta) ∷ [];
  pending_by_ip = ("10.0.0.7", 1) ∷ [];
  pending_by_proxy = ("p", 1) ∷ [];
  max_pending = 1000;
  max_pending_ip = 10;
  max_pending_proxy = 200;
  cache = record { entries = []; conn_closer = false };
}

Reach-Accounted_example :
    Accounted
      (resolve_with_retention (reserve new_manager "c1" meta).0 "c1" true 60 "ok" unspecified).0
unfolding program
Reach-Accounted_example =
    Reach-Accounted (resolved "c1" true 60 "ok" unspecified (reserved "c1" meta refl new))

resolve_with_retention_first_example :
    let am' = (resolve_with_retention waiting "c1" true 60 "ok" unspecified).0 in
    let (am'', answered) = resolve_with_retention am' "c1" false 5 "no" connection_only in
    (result_of (Map.lookup "c1" am''.requests) ≡ some (decision true 60 "ok" unspecified "r"))
    × (answered ≡ some meta)
unfolding program
resolve_with_retention_first_example =
    resolve_with_retention_first waiting "c1" (request meta) true false 60 5 "ok" "no" unspecified
      connection_only refl refl

abbrev unnamed : ApprovalRequestMeta
unnamed = record meta { source_ip = "" }
