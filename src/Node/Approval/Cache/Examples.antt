-- ===== src/Node/Approval/Cache/Examples.antt =====
-- pkg/node/approval.go: a cache in use, and its theorems at concrete inputs.
use nitella.Base.{
  ◌+◌, ◌≡◌, refl, true, false, ◌&&◌, some, [], ◌∷◌, arith, ltb, if◌then◌else◌, str_eq, concat,
}
use nitella.Base.Map
use nitella.Base.Map.{
  Map, lookup-insert, lookup-erase, lookup-retain, lookup-insert_self, lookup-insert_ne,
  lookup-erase_self, lookup-erase_ne,
}
use nitella.Node.Approval.Key.{build_key, NoNull}
use nitella.Node.Approval.Cache.{
  ApprovalEntry, ApprovalCache, LiveConnStats, no_geo, check, add, add_with_geo, remove, cleanup,
  set_conn_id, remove_conn_id, update_bytes, update_entry, new_cache, get_entry, with_live_bytes,
  get_active_approvals, to_close, conn_ids,
}
use nitella.Node.Approval.Cache.Decisions.{check-add}

program : Unit {0}
unfolding check add add_with_geo remove cleanup set_conn_id remove_conn_id update_bytes update_entry
    new_cache get_entry with_live_bytes build_key concat to_close conn_ids get_active_approvals
    Map.lookup Map.insert Map.erase Map.retain
program = tt

a_NoNull : NoNull "a"
a_NoNull = (omega arith, tt)

r_NoNull : NoNull "r"
r_NoNull = (omega arith, tt)

abbrev live : LiveConnStats
live = record { bytes_in = some 0; bytes_out = some 1 }

abbrev entry : ApprovalEntry
entry = record {
  source_ip = "a";
  rule_id = "r";
  proxy_id = "p";
  tls_session_id = "s";
  decision = true;
  expires_at = 160;
  created_at = 100;
  live_conns = ("c1", live) ∷ [];
  geo = no_geo;
  bytes_in = 5;
  bytes_out = 7;
  blocked_count = 0;
}

abbrev cache : ApprovalCache
cache = record { entries = ("a\0r\0s", entry) ∷ []; conn_closer = true }

-- the cleanup closes the connection of a decision that is over
cleanup_closes : ((cleanup cache 160).1 ≡ []) × ((cleanup cache 161).1 ≡ (("p", "c1") ∷ []))
unfolding program
cleanup_closes = (refl, refl)

check-add_example : check (add cache "a" "r" "p" "s2" true 60 200 200) "a" "r" "s" 150 ≡ (
    if str_eq "a" "a" && (str_eq "r" "r" && str_eq "s2" "s")
    then (if ltb 150 (200 + 60) then (true, true) else (false, false))
    else check cache "a" "r" "s" 150)
check-add_example =
    check-add cache "a" "r" "p" "s2" true 60 200 200 "a" "r" "s" 150 a_NoNull r_NoNull a_NoNull
      r_NoNull
