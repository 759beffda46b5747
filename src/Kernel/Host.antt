-- ===== src/Kernel/Host.antt =====
-- src/kernel/kernel.cpp: what the host does with the bytes of a library: every value of a library is
-- parsed and judged by the gate first. A call of the library's functions is known by what it returns,
-- its status and the bytes that it handed out.
use zen.Prelude.{List, Option, [], codes, none, some, ℕ, ◌++◌, ◌∷◌}
use zen.Prelude.Int.{negsuc, pos, ℤ}
use zen.Binary.{Bytes}
use zen.Failure.{Throws, ok, runtime_error, throw, ◌>>=◌, ◌>>◌}
use zen.Schema.{Schema}
use zen.Value.{Cell, Cells, Value, as_list, as_message, bad_access, cell, get_field, no_cells}
use zen.Gate.{Admission, error_message, first_error, first_only, reject}
use zen.Registry.{Registry, register_schema}
use zen.Serialize.Envelope.{Unverified, admit_bytes, claim, malformed, parse}
use zen.Compat.Numbers.{int_text}
use zen.Grant.{ShardId}
use zen.Switchboard.State.{Bus, Message, publish_as, resolve_schema, send_as}
use zen.Switchboard.Lifecycle.{lifecycle_policy_schema}
use zen.Kernel.Codec.{decode_schema, manifest_schema}

-- `ZenStatus`.
pub data Status : Type 0 where
  zen_ok zen_err zen_err_refused zen_err_unknown_schema zen_err_no_target : Status

unfoldable pub status_code : Status → ℤ
status_code zen_ok = pos 0
status_code zen_err = negsuc 0
status_code zen_err_refused = negsuc 1
status_code zen_err_unknown_schema = negsuc 2
status_code zen_err_no_target = negsuc 3

-- `Unverified::claimed_name` and `claimed_version`.
abbrev pub claimed_name : Unverified → Bytes
claimed_name (malformed e) = []
claimed_name (claim name version cid body) = name

abbrev pub claimed_version : Unverified → ℕ
claimed_version (malformed e) = 0
claimed_version (claim name version cid body) = version

abbrev pub library_message : Value → ShardId → ℕ → Message
library_message v reply_to correlation = record {
  payload = v;
  sender = 0;
  reply_to = reply_to;
  correlation = correlation;
}

module _ {S : Type 0} where
  -- What the gate answered: an admitted value is routed.
  unfoldable pub route_admitted : Bus S → Admission → (Bus S → Value → Bus S) → Status × Bus S
  route_admitted b (Admission.accept v) route = (zen_ok, route b v)
  route_admitted b (reject es) route = (zen_err_refused, b)

  -- Under the schema that the host resolved, if it did.
  unfoldable pub emit_resolved :
      Bus S → Unverified → Option Schema → (Bus S → Value → Bus S) → Throws (Status × Bus S)
  unfolding admit_bytes route_admitted
  emit_resolved b u none route = ok (zen_err_unknown_schema, b)
  emit_resolved b u (some door) route =
      admit_bytes u (some door) first_only b.gate_runs >>= λ judged.
      ok (route_admitted (record b { gate_runs = judged.1 }) (judged.0) route)

  -- The lines that `zen_host_send` and `zen_host_publish` share, given how each routes.
  unfoldable pub host_emit : Bus S → Bytes → (Bus S → Value → Bus S) → Throws (Status × Bus S)
  unfolding parse resolve_schema emit_resolved
  host_emit b payload route =
      let u = parse payload in
      emit_resolved b u (resolve_schema b (claimed_name u) (claimed_version u)) route

  -- On the `ShardBus` of the library's shard, `self`.
  unfoldable pub zen_host_send :
      Bus S → ShardId → ShardId → ShardId → ℕ → Bytes → Throws (Status × Bus S)
  unfolding host_emit send_as
  zen_host_send b self target reply_to correlation payload =
      host_emit b payload
        λ b' v. (send_as b' self target (library_message v reply_to correlation)).0

  unfoldable pub zen_host_publish : Bus S → ShardId → ShardId → ℕ → Bytes → Throws (Status × Bus S)
  unfolding host_emit publish_as
  zen_host_publish b self reply_to correlation payload =
      host_emit b payload λ b' v. (publish_as b' self (library_message v reply_to correlation)).0

-- An admitted value, or the exception that its refusal is.
unfoldable pub trust_library : Bytes → Admission → ℕ → Throws (Value × ℕ)
unfolding first_error error_message
trust_library what (Admission.accept v) runs = ok (v, runs)
trust_library what (reject es) runs = first_error (reject es) >>= λ e. throw (
    runtime_error
      (codes "library " ++ (what ++ (codes " refused by the gate: " ++ error_message e))))

-- `HostAdapter::admit_bytes`, with the counter of gate runs passed along.
unfoldable pub admit_library : Bytes → Schema → Bytes → ℕ → Throws (Value × ℕ)
unfolding parse admit_bytes trust_library
admit_library input door what runs =
    admit_bytes (parse input) (some door) first_only runs >>= λ judged.
    trust_library what (judged.0) (judged.1)

-- The status of a call, which is an error unless it is zero.
unfoldable pub require_ok : Status → Bytes → Throws (Unit {0})
unfolding status_code int_text
require_ok zen_ok what = ok tt
require_ok st what = throw (
    runtime_error
      (codes "library " ++ (what ++ (codes "() failed with status " ++ int_text (status_code st)))))

-- `HostAdapter::snapshot` and `policy`, given what the library's call returned.
unfoldable pub adapter_snapshot : Status × Bytes → Schema → ℕ → Throws (Value × ℕ)
unfolding require_ok admit_library
adapter_snapshot (st, input) state_schema runs =
    require_ok st (codes "snapshot") >> admit_library input state_schema (codes "snapshot") runs

unfoldable pub adapter_policy : Status × Bytes → ℕ → Throws (Value × ℕ)
unfolding require_ok admit_library lifecycle_policy_schema
adapter_policy (st, input) runs =
    require_ok st (codes "policy")
    >> admit_library input lifecycle_policy_schema (codes "policy") runs

-- The loop of `Kernel::reconstruct` over the accepted schemas, and its registry.
unfoldable pub reconstruct_accepted : Cells → Registry → Throws (List Schema × Registry)
unfolding as_message decode_schema register_schema
reconstruct_accepted no_cells registry = ok ([], registry)
reconstruct_accepted (cell c cs) registry = as_message c >>= λ desc.
    decode_schema desc registry >>= λ s. register_schema registry (some s) >>= λ registered.
    reconstruct_accepted cs (registered.1) >>= λ rest. ok (s ∷ rest.0, rest.1)

unfoldable pub state_of_manifest : Option Cell → Throws Value
unfolding as_message
state_of_manifest none = throw bad_access
state_of_manifest (some c) = as_message c

-- `Kernel::reconstruct`, given what the library's `describe` returned.
unfoldable pub reconstruct :
    Status × Bytes → Registry → ℕ → Throws ((List Schema × Schema) × Registry × ℕ)
unfolding admit_library reconstruct_accepted state_of_manifest decode_schema register_schema
    get_field as_list require_ok
reconstruct (st, input) registry runs =
    require_ok st (codes "describe")
    >> (admit_library input manifest_schema (codes "manifest") runs >>= λ judged.
        as_list (get_field (judged.0) (codes "accepted")) >>= λ descs.
        reconstruct_accepted descs registry >>= λ accepted.
        state_of_manifest (get_field (judged.0) (codes "state")) >>= λ desc.
        decode_schema desc (accepted.1) >>= λ state.
        register_schema (accepted.1) (some state) >>= λ registered.
        ok ((accepted.0, state), registered.1, judged.1))
