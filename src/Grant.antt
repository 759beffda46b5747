-- ===== src/Grant.antt =====
-- include/zen/switchboard/grant.hpp: what a shard may do. A `ShardId` is its number.
pub mod Authority
use zen.Prelude.{Bool, List, [], bit_and, bit_or, bytes_eq, codes, false, if◌then◌else◌, not}
use zen.Prelude.{true, ℕ, ◌&&◌, ◌++◌, ◌==◌, ◌||◌, ◌∷◌}
use zen.Prelude.Int.{pos, ℤ}
use zen.Binary.{Bytes}

abbrev pub ShardId : Type 0
ShardId = ℕ

abbrev pub cap_network : ℕ
cap_network = 1

abbrev pub cap_spawn_process : ℕ
cap_spawn_process = 2

pub data FsAccess : Type 0 where
  no_access read_only write_scoped write_no_exec write_anywhere : FsAccess

unfoldable pub fs_access_name : FsAccess → Bytes
fs_access_name no_access = codes "none"
fs_access_name read_only = codes "read-only"
fs_access_name write_scoped = codes "write-scoped"
fs_access_name write_no_exec = codes "write-no-exec"
fs_access_name write_anywhere = codes "write-anywhere"

pub record SendRule : Type 0 where
  pub any_shape : Bool
  pub shape_name : Bytes
  pub shape_version : ℕ
  pub any_target : Bool
  pub target : ShardId

pub record ResourceLimits : Type 0 where
  pub memory_bytes : ℤ
  pub pids : ℤ
  pub cpu_weight : ℤ
  pub unlimited : Bool

pub record Grant : Type 0 where
  pub rules : List SendRule
  pub os : ℕ
  pub fs : FsAccess
  pub fs_path : Bytes
  pub res : ResourceLimits

-- `Grant::nothing()`, the default.
abbrev pub no_grant : Grant
no_grant = record {
  rules = [];
  os = 0;
  fs = no_access;
  fs_path = [];
  res = record { memory_bytes = pos 0; pids = pos 0; cpu_weight = pos 0; unlimited = false };
}

unfoldable pub add_rule : Grant → SendRule → Grant
add_rule g r = record g { rules = g.rules ++ r ∷ [] }

unfoldable pub allow : Grant → Bytes → ℕ → ShardId → Grant
unfolding add_rule
allow g name version to = add_rule g (record {
  any_shape = false;
  shape_name = name;
  shape_version = version;
  any_target = false;
  target = to;
})

unfoldable pub allow_to_any : Grant → Bytes → ℕ → Grant
unfolding add_rule
allow_to_any g name version = add_rule g (record {
  any_shape = false;
  shape_name = name;
  shape_version = version;
  any_target = true;
  target = 0;
})

unfoldable pub allow_any_to : Grant → ShardId → Grant
unfolding add_rule
allow_any_to g to = add_rule g (record {
  any_shape = true;
  shape_name = [];
  shape_version = 0;
  any_target = false;
  target = to;
})

unfoldable pub allow_any : Grant → Grant
unfolding add_rule
allow_any g =
    add_rule g (record {
      any_shape = true;
      shape_name = [];
      shape_version = 0;
      any_target = true;
      target = 0;
    })

unfoldable pub with_os_capabilities : Grant → ℕ → Grant
with_os_capabilities g caps = record g { os = bit_or g.os caps }

unfoldable pub with_filesystem : Grant → FsAccess → Bytes → Grant
with_filesystem g level scoped_path = record g { fs = level; fs_path = scoped_path }

unfoldable pub with_resources : Grant → ResourceLimits → Grant
with_resources g limits = record g { res = limits }

unfoldable pub with_unlimited_resources : Grant → Grant
with_unlimited_resources g = record g {
  res = record {
    memory_bytes = g.res.memory_bytes;
    pids = g.res.pids;
    cpu_weight = g.res.cpu_weight;
    unlimited = true;
  };
}

unfoldable pub rule_permits : SendRule → Bytes → ℕ → ShardId → Bool
rule_permits r name version to =
    (r.any_shape || bytes_eq r.shape_name name && r.shape_version == version)
    && (r.any_target || r.target == to)

unfoldable pub rules_permit : List SendRule → Bytes → ℕ → ShardId → Bool
unfolding rule_permits
rules_permit [] name version to = false
rules_permit (r ∷ rs) name version to =
    if rule_permits r name version to then true else rules_permit rs name version to

unfoldable pub permits : Grant → Bytes → ℕ → ShardId → Bool
unfolding rules_permit
permits g name version to = rules_permit g.rules name version to

unfoldable pub has_os_capability : Grant → ℕ → Bool
has_os_capability g cap = not (cap == 0) && bit_and g.os cap == cap
