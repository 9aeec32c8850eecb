-- ===== src/Node/Approval/Manager/Stored.antt =====
-- pkg/node/approval.go: the calls of `ApprovalManager` that go to its cache of decisions.
use nitella.Base.{ℕ, String, Bool}
use nitella.Node.Approval.Cache
use nitella.Node.Approval.Cache.{Geo, LiveConnStats}
use nitella.Node.Approval.Manager.{ApprovalManager}

-- `CheckCache`
unfoldable pub check_cache : ApprovalManager → String → String → String → ℕ → Bool × Bool
check_cache am source_ip rule_id session now = Cache.check am.cache source_ip rule_id session now

-- `AddToCache`
unfoldable pub add_to_cache :
    ApprovalManager → String → String → String → String → Bool → ℕ → ℕ → ℕ → ApprovalManager
add_to_cache am source_ip rule_id proxy_id session allowed duration now created = record am {
  cache = Cache.add am.cache source_ip rule_id proxy_id session allowed duration now created;
}

-- `AddToCacheWithGeo`
unfoldable pub add_to_cache_with_geo :
    ApprovalManager → String → String → String → String → Bool → ℕ → Geo → ℕ → ℕ → ApprovalManager
add_to_cache_with_geo am source_ip rule_id proxy_id session allowed duration geo now created =
    record am {
      cache =
          Cache.add_with_geo am.cache source_ip rule_id proxy_id session allowed duration geo now
            created;
    }

-- `RemoveApproval`
unfoldable pub remove_approval : ApprovalManager → String → String → String → ApprovalManager
remove_approval am source_ip rule_id session = record am {
  cache = Cache.remove am.cache source_ip rule_id session;
}

-- `SetConnID`
unfoldable pub set_conn_id :
    ApprovalManager → String → String → String → String → LiveConnStats → ApprovalManager × Bool
set_conn_id am source_ip rule_id session conn_id stats =
    let (c, ok) = Cache.set_conn_id am.cache source_ip rule_id session conn_id stats in
    (record am { cache = c }, ok)

-- `RemoveConnID`
unfoldable pub remove_conn_id :
    ApprovalManager → String → String → String → String → ApprovalManager
remove_conn_id am source_ip rule_id session conn_id = record am {
  cache = Cache.remove_conn_id am.cache source_ip rule_id session conn_id;
}

-- `SetConnectionCloser`
unfoldable pub set_connection_closer : ApprovalManager → Bool → ApprovalManager
set_connection_closer am closer = record am { cache = Cache.set_connection_closer am.cache closer }

-- `IncrementBlockedCount`
unfoldable pub increment_blocked_count :
    ApprovalManager → String → String → String → ApprovalManager
increment_blocked_count am source_ip rule_id session = record am {
  cache = Cache.increment_blocked_count am.cache source_ip rule_id session;
}

-- `UpdateBytes`
unfoldable pub update_bytes : ApprovalManager → String → String → String → ℕ → ℕ → ApprovalManager
update_bytes am source_ip rule_id session bytes_in bytes_out = record am {
  cache = Cache.update_bytes am.cache source_ip rule_id session bytes_in bytes_out;
}
