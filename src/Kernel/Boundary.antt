-- ===== src/Kernel/Boundary.antt =====
-- src/kernel/kernel.cpp: nothing of a library gets past the host but instances of the schemas that
-- the host itself resolves.
use zen.Prelude.{Option, ap, none, refl, some, subst, sym, true, ℕ, ◌∙◌, ◌≡◌}
use zen.Binary.{Bytes}
use zen.Failure.{>>=-eq-ok, Throws, ok, ok-injective, ◌>>=◌}
use zen.Schema.{Schema}
use zen.Value.{Value}
use zen.Gate.{Admission, accept, first_only, reject}
use zen.Gate.Verdict.{IsInstance}
use zen.Serialize.Envelope.{Unverified, admit_bytes, parse}
use zen.Serialize.Trust.{admit_bytes-IsInstance}
use zen.Serialize.Total.{admit_bytes-IsTotal}
use zen.Grant.{ShardId}
use zen.Switchboard.State.{Bus, Message, enqueue, enqueue_directed, resolve_schema, send_as}
use zen.Kernel.Host.{Status, claimed_name, claimed_version, emit_resolved, host_emit}
use zen.Kernel.Host.{route_admitted, zen_err_refused, zen_err_unknown_schema, zen_host_send}
use zen.Kernel.Host.{zen_ok}

-- The message that a send of a library puts on the bus.
abbrev sent_message : ShardId → ShardId → ℕ → Value → Message
sent_message self reply_to correlation v = record {
  payload = v;
  sender = self;
  reply_to = reply_to;
  correlation = correlation;
}

module _ {S : Type 0} where
  -- What a send of a library can come to: the bus is left alone but for the counter of gate runs,
  -- or one envelope is at the end of the queue, stamped and gated, whose payload is an instance.
  pub data Emission (b : Bus S) (self target reply_to : ShardId) (correlation : ℕ) (b' : Bus S)
      : Status → Type 0 where
    unresolved : b' ≡ b → Emission b self target reply_to correlation b' zen_err_unknown_schema
    turned_down :
        (runs : ℕ)
        → b' ≡ record b { gate_runs = runs }
        → Emission b self target reply_to correlation b' zen_err_refused
    emitted :
        (runs : ℕ) (door : Schema) (v : Value) (name : Bytes) (version : ℕ)
        → resolve_schema b name version ≡ some door
        → IsInstance v door
        → b'
          ≡ enqueue
              (record b { gate_runs = runs })
              target
              (record {
                payload = v;
                sender = self;
                reply_to = reply_to;
                correlation = correlation;
              })
              true
        → Emission b self target reply_to correlation b' zen_ok

  routed_Emission :
      (b : Bus S) (self target reply_to : ShardId) (correlation runs : ℕ) (name : Bytes)
      (version : ℕ) (door : Schema) (a : Admission) {st : Status} {b' : Bus S}
      → resolve_schema b name version ≡ some door
      → ((v : Value) → a ≡ accept v → IsInstance v door)
      → route_admitted
          (record b { gate_runs = runs })
          a
          (λ b'' v. enqueue b'' target (sent_message self reply_to correlation v) true)
        ≡ (st, b')
      → Emission b self target reply_to correlation b' st
  unfolding route_admitted
  routed_Emission b self target reply_to correlation runs name version door (Admission.accept v)
        found trusted h =
      subst (Emission b self target reply_to correlation _) (ap (λ (p : Status × Bus S). p.0) h) (
        emitted runs door v name version found (trusted v refl)
          (sym (ap (λ (p : Status × Bus S). p.1) h)))
  routed_Emission b self target reply_to correlation runs name version door (reject es) found
        trusted h =
      subst (Emission b self target reply_to correlation _) (ap (λ (p : Status × Bus S). p.0) h)
        (turned_down runs (sym (ap (λ (p : Status × Bus S). p.1) h)))

  judged_Emission :
      (b : Bus S) (self target reply_to : ShardId) (correlation : ℕ) (u : Unverified)
      (o : Option Schema) {st : Status} {b' : Bus S}
      → resolve_schema b (claimed_name u) (claimed_version u) ≡ o
      → emit_resolved b u o
          (λ b'' v. enqueue b'' target (sent_message self reply_to correlation v) true)
        ≡ ok (st, b')
      → Emission b self target reply_to correlation b' st
  unfolding emit_resolved
  judged_Emission b self target reply_to correlation u none found h =
      let same = ok-injective h in
      subst (Emission b self target reply_to correlation _) (ap (λ (p : Status × Bus S). p.0) same)
        (unresolved (sym (ap (λ (p : Status × Bus S). p.1) same)))
  judged_Emission b self target reply_to correlation u (some door) found h =
      let ((a, runs), judged, routed) =
        >>=-eq-ok (admit_bytes u (some door) first_only b.gate_runs) _ h in
      routed_Emission b self target reply_to correlation runs (claimed_name u) (claimed_version u)
        door a found
        (λ v e.
          admit_bytes-IsInstance u door first_only b.gate_runs
            (judged ∙ ap (λ (x : Admission). ok (x, runs)) e))
        (ok-injective routed)

  emit_resolved-ok :
      (b : Bus S) (u : Unverified) (o : Option Schema) (route : Bus S → Value → Bus S)
      → (r : Status × Bus S) × (emit_resolved b u o route ≡ ok r)
  unfolding emit_resolved
  emit_resolved-ok b u none route = (_, refl)
  emit_resolved-ok b u (some door) route =
      let ((a, runs), judged) = admit_bytes-IsTotal u door first_only b.gate_runs in
      (
        route_admitted (record b { gate_runs = runs }) a route,
        ap
            (λ (call : Throws (Admission × ℕ)).
              call >>= λ (x, n). ok (route_admitted (record b { gate_runs = n }) x route))
            judged,
      )

  -- Whatever bytes a library sends, the host's call throws nothing and ends in one of three ways,
  -- told apart by the status: an unknown schema leaves the bus as it was; a refusal leaves it but
  -- for the counter of gate runs; and success puts one envelope behind the queue, under the
  -- library's own shard and subject to its grant, whose payload is an instance of a schema that the
  -- host resolved.
  pub zen_host_send-Emission :
      (b : Bus S) (self target reply_to : ShardId) (correlation : ℕ) (payload : Bytes)
      → (st : Status) × (b' : Bus S) × (zen_host_send b self target reply_to correlation payload
          ≡ ok (st, b'))
        × Emission b self target reply_to correlation b' st
  unfolding zen_host_send host_emit send_as enqueue_directed
  zen_host_send-Emission b self target reply_to correlation payload =
      let u = parse payload in
      let o = resolve_schema b (claimed_name u) (claimed_version u) in
      let ((st, b'), sent) =
        emit_resolved-ok b u o
          (λ b'' v. enqueue b'' target (sent_message self reply_to correlation v) true) in
      (st, b', sent, judged_Emission b self target reply_to correlation u o refl sent)
