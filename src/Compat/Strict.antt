-- ===== src/Compat/Strict.antt =====
-- src/serialize.cpp: the JSON decoder is strict. Errors are never taken back, and a member that the
-- door does not declare is one.
use zen.Prelude.{Bool, Bool-cases, List, Option, [], ap, bytes_eq, bytes_eq→eq, codes, false}
use zen.Prelude.{if◌then◌else◌, inl, inr, length, none, refl, some, subst, true, ℕ, ◌++◌, ◌+◌}
use zen.Prelude.{◌==◌, ◌∙◌, ◌∷◌, ◌≡◌, ◌≢◌}
use zen.Binary.{Bytes}
use zen.Failure.{>>=-eq-ok, ok, ok-injective, ◌>>=◌}
use zen.Schema.{FieldView, Fields, Schema, TypeRef, field, find_field, no_fields, schema}
use zen.Schema.{schema_fields}
use zen.Value.{Cell, Value, boolean, integer, no_cells, real, set_field}
use zen.Gate.{Error, ErrorKind, Report, accept, field_path, index_path, is_full, malformed_field}
use zen.Gate.{type_mismatch}
use zen.Utf8.{valid_utf8}
use zen.Base64.{base64_decode}
use zen.Json.{JsonItems, JsonMembers, JsonValue, array_node, bool_node, find_member, is_member}
use zen.Json.{item, member, no_items, no_members, number_node, object_node, string_node}
use zen.Compat.Numbers.{json_parse_int64}
use zen.Compat.Decode.{Noted, check_member, check_members, float_token, json_cell, json_field}
use zen.Compat.Decode.{json_fields, json_items, json_object, json_primitive, json_type_name}
use zen.Compat.Decode.{mismatch, push_error, read_as, refuse_cell, stop_decoding, store_decoded}
use zen.Compat.Envelope.{admit_json, json_claim}
use zen.Compat.Trust.{admit_json_against-clean}

-- Where a call ends without an error, there was none before it.
abbrev Grows : {A : Type 0} → List Error → Noted A → Type 0
Grows {A} errs call = (a : A) → call ≡ ok (a, []) → errs ≡ []

Grows-then :
    {A B : Type 0} (errs : List Error) (call : Noted A) (next : A × List Error → Noted B)
    → Grows errs call
    → ((a : A) (errs' : List Error) → Grows errs' (next (a, errs')))
    → Grows errs (call >>= next)
Grows-then errs call next first second b h =
    let ((a, errs'), called, finished) = >>=-eq-ok call next h in
    first a (called ∙ ap (λ (es : List Error). ok (a, es)) (second a errs' b finished))

Grows-ok : {A : Type 0} (errs : List Error) (a : A) → Grows errs (ok (a, errs))
Grows-ok {A = A} errs a b h = ap (λ (p : A × List Error). p.1) (ok-injective h)

Grows-if :
    {A : Type 0} (errs : List Error) (b : Bool) (call call' : Noted A)
    → Grows errs call
    → Grows errs call'
    → Grows errs (if b then call else call')
Grows-if errs true call call' h h' = h
Grows-if errs false call call' h h' = h'

append_not_nil : {A : Type 0} (xs : List A) (x : A) → xs ++ x ∷ [] ≢ []
append_not_nil [] x e = cc
append_not_nil (y ∷ xs) x e = cc

refuse_cell-Grows :
    (kind : ErrorKind) (path expected actual detail : Bytes) (errs : List Error)
    → Grows errs (refuse_cell kind path expected actual detail errs)
unfolding refuse_cell push_error
refuse_cell-Grows kind path expected actual detail errs a h =
    absurd (append_not_nil errs _ (ap (λ (p : Option Cell × List Error). p.1) (ok-injective h)))

read_as-Grows :
    {A : Type 0} (o : Option A) (make : A → Cell) (path expected actual detail : Bytes)
    (errs : List Error)
    → Grows errs (read_as o make path expected actual detail errs)
read_as-Grows none make path expected actual detail errs =
    refuse_cell-Grows malformed_field path expected actual detail errs
read_as-Grows (some a) make path expected actual detail errs = Grows-ok errs (some (make a))

mismatch-Grows :
    (path expected : Bytes) (node : JsonValue) (errs : List Error)
    → Grows errs (mismatch path expected node errs)
mismatch-Grows path expected node errs =
    refuse_cell-Grows type_mismatch path expected (json_type_name node) [] errs

json_primitive-Grows :
    (from_chars : Bytes → Option ℕ) (t : TypeRef) (node : JsonValue) (path : Bytes)
    (errs : List Error)
    → Grows errs (json_primitive from_chars t node path errs)
unfolding json_primitive
json_primitive-Grows from_chars TypeRef.int (string_node s) path errs =
    read_as-Grows (json_parse_int64 s) integer path _ _ _ errs
json_primitive-Grows from_chars TypeRef.int node path errs =
    mismatch-Grows path (codes "Int") node errs
json_primitive-Grows from_chars TypeRef.float (number_node s) path errs =
    read_as-Grows (if length s == 0 then none else from_chars s) real path _ _ _ errs
json_primitive-Grows from_chars TypeRef.float (string_node s) path errs =
    read_as-Grows (float_token s) real path _ _ _ errs
json_primitive-Grows from_chars TypeRef.float node path errs =
    mismatch-Grows path (codes "Float") node errs
json_primitive-Grows from_chars TypeRef.text (string_node s) path errs =
    read_as-Grows (if valid_utf8 s then some s else none) Cell.text path _ _ _ errs
json_primitive-Grows from_chars TypeRef.text node path errs =
    mismatch-Grows path (codes "Text") node errs
json_primitive-Grows from_chars TypeRef.bool (bool_node b) path errs =
    Grows-ok errs (some (boolean b))
json_primitive-Grows from_chars TypeRef.bool node path errs =
    mismatch-Grows path (codes "Bool") node errs
json_primitive-Grows from_chars t (string_node s) path errs =
    read_as-Grows (base64_decode s) Cell.bytes path _ _ _ errs
json_primitive-Grows from_chars t node path errs = mismatch-Grows path (codes "Bytes") node errs

abbrev Decodes : (JsonValue → Bytes → List Error → Noted (Option Cell)) → Type 0
Decodes decode =
    (node : JsonValue) (path : Bytes) (errs : List Error) → Grows errs (decode node path errs)

json_items-Grows :
    (decode : JsonValue → Bytes → List Error → Noted (Option Cell))
    → Decodes decode
    → (collect_all : Bool) (items : JsonItems) (i : ℕ) (path : Bytes) (errs : List Error)
    → Grows errs (json_items decode collect_all items i path errs)
unfolding json_items
json_items-Grows decode d collect_all no_items i path errs = Grows-ok errs no_cells
json_items-Grows decode d collect_all (item node items) i path errs =
    Grows-if errs (stop_decoding collect_all errs) _ _ (Grows-ok errs no_cells) (
      Grows-then errs (decode node (index_path path i) errs) _ (d node (index_path path i) errs)
        λ c errs'.
          Grows-then errs' (json_items decode collect_all items (i + 1) path errs') _
            (json_items-Grows decode d collect_all items (i + 1) path errs')
            λ cs errs''. Grows-ok errs'' _)

store_decoded-Grows :
    (out : Value) (name : Bytes) (o : Option Cell) (errs : List Error)
    → Grows errs (store_decoded out name o errs)
unfolding store_decoded
store_decoded-Grows out name none errs v h = Grows-ok errs out v h
store_decoded-Grows out name (some c) errs v h =
    let (out', stored, finished) = >>=-eq-ok (set_field out name c) _ h in
    Grows-ok errs out' v finished

json_field-Grows :
    (decode : JsonValue → Bytes → List Error → Noted (Option Cell))
    → Decodes decode
    → (o : Option JsonValue) (name : Bytes) (out : Value) (base : Bytes) (errs : List Error)
    → Grows errs (json_field decode o name out base errs)
unfolding json_field
json_field-Grows decode d none name out base errs = Grows-ok errs out
json_field-Grows decode d (some node) name out base errs =
    Grows-then errs (decode node (field_path base name) errs) _ (d node (field_path base name) errs)
      λ c errs'. store_decoded-Grows out name c errs'

-- A check that ends without an error has seen declared members only.
push_error_not_nil :
    (kind : ErrorKind) (path expected actual detail : Bytes) (errs : List Error)
    → push_error kind path expected actual detail errs ≢ []
unfolding push_error
push_error_not_nil kind path expected actual detail errs = append_not_nil errs _

check_member-nil :
    (o : Option FieldView) (base name : Bytes) (errs : List Error)
    → check_member o base name errs ≡ []
    → (errs ≡ []) × (o ≢ none)
unfolding check_member
check_member-nil (some f) base name errs h = (h, λ e. cc)
check_member-nil none base name errs h = absurd (push_error_not_nil _ _ _ _ _ errs h)

stop_decoding-nil : (collect_all : Bool) → stop_decoding collect_all [] ≡ false
unfolding stop_decoding
stop_decoding-nil collect_all = refl

check_members-nil :
    (collect_all : Bool) (fs : Fields) (base : Bytes) (ms : JsonMembers) (errs : List Error)
    → check_members collect_all fs base ms errs ≡ []
    → (errs ≡ []) × ((k : Bytes) → is_member ms k ≡ true → find_field fs k ≢ none)
unfolding check_members is_member
check_members-nil collect_all fs base no_members errs h = (h, λ k e. cc)
check_members-nil collect_all fs base (member name node ms) errs h =
    elim (Bool-cases (stop_decoding collect_all errs)) [
      | inl stop ↦
          let none_yet : errs ≡ [] = rw stop at h in
          absurd (cc (stop, ap (stop_decoding collect_all) none_yet, stop_decoding-nil collect_all))
      | inr more ↦
          let (next_nil, rest) =
            check_members-nil collect_all fs base ms
              (check_member (find_field fs name) base name errs) (rw more at h) in
          let (nil, declared) = check_member-nil (find_field fs name) base name errs next_nil in
          (
            nil,
            λ k e. elim (Bool-cases (bytes_eq name k)) [
              | inl same ↦ subst (λ n. find_field fs n ≢ none) (bytes_eq→eq name k same) declared
              | inr other ↦ rest k (rw other at e)
            ],
          )
    ]

module _ (from_chars : Bytes → Option ℕ) (collect_all : Bool) where
  mutual
    unfolding json_cell

    json_cell-Grows :
        (t : TypeRef) (node : JsonValue) (path : Bytes) (errs : List Error)
        → Grows errs (json_cell from_chars collect_all t node path errs)
    json_cell-Grows (TypeRef.message s) (object_node ms) path errs =
        Grows-then errs (json_object from_chars collect_all s ms path errs) _
          (json_object-Grows s ms path errs) (λ v errs'. Grows-ok errs' _)
    json_cell-Grows (TypeRef.message s) node path errs = mismatch-Grows path _ node errs
    json_cell-Grows (TypeRef.list t) (array_node items) path errs =
        Grows-then errs
          (json_items (json_cell from_chars collect_all t) collect_all items 0 path errs) _
          (json_items-Grows (json_cell from_chars collect_all t) (json_cell-Grows t) collect_all
            items 0 path errs)
          (λ cs errs'. Grows-ok errs' _)
    json_cell-Grows (TypeRef.list t) node path errs = mismatch-Grows path _ node errs
    json_cell-Grows t node path errs = json_primitive-Grows from_chars t node path errs

    json_object-Grows :
        (s : Schema) (ms : JsonMembers) (base : Bytes) (errs : List Error)
        → Grows errs (json_object from_chars collect_all s ms base errs)
    json_object-Grows (schema name version fs cid) ms base errs v h =
        (check_members-nil collect_all fs base ms errs
          (json_fields-Grows fs ms _ base (check_members collect_all fs base ms errs) v h)).0

    json_fields-Grows :
        (fs : Fields) (ms : JsonMembers) (out : Value) (base : Bytes) (errs : List Error)
        → Grows errs (json_fields from_chars collect_all fs ms out base errs)
    json_fields-Grows no_fields ms out base errs = Grows-ok errs out
    json_fields-Grows (field n t r fs) ms out base errs =
        Grows-if errs (stop_decoding collect_all errs) _ _ (Grows-ok errs out) (
          Grows-then errs
            (json_field (json_cell from_chars collect_all t) (find_member ms n) n out base errs) _
            (json_field-Grows (json_cell from_chars collect_all t) (json_cell-Grows t)
              (find_member ms n) n out base errs)
            λ out' errs'. json_fields-Grows fs ms out' base errs')

object_declared :
    (from_chars : Bytes → Option ℕ) (collect_all : Bool) (s : Schema) (ms : JsonMembers) (v : Value)
    (k : Bytes)
    → json_object from_chars collect_all s ms [] [] ≡ ok (v, [])
    → is_member ms k ≡ true
    → find_field (schema_fields s) k ≢ none
unfolding json_object
object_declared from_chars collect_all (schema name version fs cid) ms v k h named =
    (check_members-nil collect_all fs [] ms [] (
        json_fields-Grows from_chars collect_all fs ms _ [] (check_members collect_all fs [] ms [])
          v h)).1
      k named

-- Whatever reads the doubles, JSON with a member of the fields that the door does not declare is
-- never accepted, in either mode.
pub admit_json_strict :
    (from_chars : Bytes → Option ℕ) (name : Bytes) (version : ℕ) (cid : Option ℕ) (ms : JsonMembers)
    (door : Schema) (report : Report) (runs : ℕ) (k : Bytes) {w : Value} {runs' : ℕ}
    → is_member ms k ≡ true
    → find_field (schema_fields door) k ≡ none
    → admit_json from_chars (json_claim name version cid ms) (some door) report runs
      ≢ ok (accept w, runs')
unfolding admit_json
admit_json_strict from_chars name version cid ms door report runs k named undeclared h =
    let ((v, read_e), i) =
      admit_json_against-clean from_chars name version cid ms door (is_full report) runs h in
    object_declared from_chars (is_full report) door ms v k read_e named undeclared
