-- ===== src/Samples/Codec.antt =====
-- A codec for six log entries and for snapshots of two maps; everything else fails to marshal.
use native.Mathlib.Decide.{ℕ_discrete}
use sharded_kvs.Prelude.{
  ℕ, zero, suc, String, ◌≡◌, refl, ap, Bool, true, false, Option, none, some, List, [], ◌∷◌, inl,
  inr, String-cases, GoMap, Error, library, not_leader, Result, ok, err, Option-cases, ok-injective,
  ◌⊎◌, ◌≢◌, Result-cases,
}
use sharded_kvs.Protos.{Bytes, KvfsmLogEntry, KvfsmSnapshot, Proto, Decoded, contents}
use sharded_kvs.Kvstore.Ops.{set_entry, delete_entry, toggle_entry}

same_texts : (a b : Option String) → Option (a ≡ b)
unfolding String-cases
same_texts none none = some refl
same_texts (some s) (some t) = elim (String-cases s t) [ inl e ↦ some (ap some e) | inr ne ↦ none ]
same_texts _ _ = none

same_flags : (a b : Option Bool) → Option (a ≡ b)
same_flags none none = some refl
same_flags (some true) (some true) = some refl
same_flags (some false) (some false) = some refl
same_flags _ _ = none

same_entry : (d e : KvfsmLogEntry) → Option (d ≡ e)
unfolding same_texts same_flags ℕ_discrete
same_entry d e = elim (ℕ_discrete d.operation e.operation) [
  | no _ ↦ none
  | yes o ↦ elim (same_texts d.key e.key) [
    | none ↦ none
    | some k ↦ elim (same_texts d.value e.value) [
      | none ↦ none
      | some v ↦ elim (same_flags d.writes_enabled e.writes_enabled) [
        | none ↦ none
        | some f ↦
            some λ i. record { operation = o i; key = k i; value = v i; writes_enabled = f i }
      ]
    ]
  ]
]

abbrev pub no_code : Error
no_code = library 1

pub decode_entry : Bytes → Result KvfsmLogEntry
decode_entry (zero ∷ []) = ok (set_entry "k" "v")
decode_entry (suc zero ∷ []) = ok (delete_entry "k")
decode_entry (suc (suc zero) ∷ []) = ok (toggle_entry true)
decode_entry (suc (suc (suc zero)) ∷ []) = ok (toggle_entry false)
decode_entry (suc (suc (suc (suc zero))) ∷ []) = ok (set_entry "k" "w")
decode_entry (suc (suc (suc (suc (suc zero)))) ∷ []) = ok (set_entry "j" "v")
decode_entry _ = err no_code

-- The first code of a list that decodes to the entry.
pub encode_by : List Bytes → KvfsmLogEntry → Result Bytes
unfolding same_entry decode_entry
encode_by [] e = err no_code
encode_by (b ∷ bs) e =
    let rest = encode_by bs e in
    elim (decode_entry b) [
      | err x ↦ rest
      | ok d ↦ elim (same_entry d e) [ some q ↦ ok b | none ↦ rest ]
    ]

pub encode_by-decode :
    (bs : List Bytes) (e : KvfsmLogEntry) (b : Bytes)
    → encode_by bs e ≡ ok b
    → decode_entry b ≡ ok e
unfolding encode_by
encode_by-decode [] e b h = cc
encode_by-decode (c ∷ bs) e b h = elim (Result-cases (decode_entry c)) [
  | inr (x, q) ↦ encode_by-decode bs e b (rw (q, encode_by) at h)
  | inl (d, q) ↦ elim (Option-cases (same_entry d e)) [
    | inl none_here ↦ encode_by-decode bs e b (rw (q, none_here, encode_by) at h)
    | inr (same, found) ↦ cc (same, q, (rw (q, found, encode_by) at h))
  ]
]

-- No entry fails to marshal because of who leads.
pub encode_by-leader : (bs : List Bytes) (e : KvfsmLogEntry) → encode_by bs e ≢ err not_leader
unfolding encode_by
encode_by-leader [] e q = cc (q)
encode_by-leader (c ∷ bs) e q = elim (Result-cases (decode_entry c)) [
  | inr (x, ran) ↦ encode_by-leader bs e (rw (ran, encode_by) at q)
  | inl (d, ran) ↦ elim (Option-cases (same_entry d e)) [
    | inl none_here ↦ encode_by-leader bs e (rw (ran, none_here, encode_by) at q)
    | inr (same, found) ↦ cc (rw (ran, found, encode_by) at q)
  ]
]

abbrev pub sample_map : GoMap String
sample_map = ("k", "v") ∷ []

abbrev coded : Option (GoMap String) → Bool → KvfsmSnapshot
coded m b = record { kv_store = m; writes_enabled = b }

abbrev flag_code : Bool → ℕ
flag_code true = 1
flag_code false = 0

abbrev code_flag : ℕ → Bool
code_flag zero = false
code_flag (suc n) = true

code_flag-flag_code : (b : Bool) → code_flag (flag_code b) ≡ b
code_flag-flag_code true = refl
code_flag-flag_code false = refl

pub decode_snapshot : Bytes → Result KvfsmSnapshot
decode_snapshot (zero ∷ c ∷ []) = ok (coded none (code_flag c))
decode_snapshot (suc zero ∷ c ∷ []) = ok (coded (some sample_map) (code_flag c))
decode_snapshot _ = err no_code

encode_one : {k v : String} → (k ≡ "k") ⊎ (k ≢ "k") → (v ≡ "v") ⊎ (v ≢ "v") → Bool → Result Bytes
encode_one (inl e) (inl f) b = ok (1 ∷ flag_code b ∷ [])
encode_one _ _ b = err no_code

encode_entries : GoMap String → Bool → Result Bytes
unfolding String-cases encode_one
encode_entries [] b = ok (0 ∷ flag_code b ∷ [])
encode_entries ((k, v) ∷ []) b = encode_one (String-cases k "k") (String-cases v "v") b
encode_entries _ b = err no_code

pub encode_snapshot : KvfsmSnapshot → Result Bytes
unfolding encode_entries
encode_snapshot s = encode_entries (contents s.kv_store) s.writes_enabled

module _ (s : KvfsmSnapshot) where
  abbrev IsDecodable : Bytes → Type 0
  IsDecodable b = (t : KvfsmSnapshot) × (decode_snapshot b ≡ ok t) × Decoded s t

  one-IsDecodable :
      {k v : String} (dk : (k ≡ "k") ⊎ (k ≢ "k")) (dv : (v ≡ "v") ⊎ (v ≢ "v")) (b : Bytes)
      → contents s.kv_store ≡ (k, v) ∷ []
      → encode_one dk dv s.writes_enabled ≡ ok b
      → IsDecodable b
  unfolding encode_one decode_snapshot
  one-IsDecodable (inl e) (inl f) b m h = (
    coded (some sample_map) s.writes_enabled,
    rw (← ok-injective _ b h, code_flag-flag_code s.writes_enabled) refl,
    record { views = λ j. rw (m, e, f) refl; flag = refl; no_entries = λ q. absurd (cc (q, m)) },
  )
  one-IsDecodable (inl e) (inr f) b m h = cc
  one-IsDecodable (inr e) _ b m h = cc

  entries-IsDecodable :
      (m : GoMap String) (b : Bytes)
      → contents s.kv_store ≡ m
      → encode_entries m s.writes_enabled ≡ ok b
      → IsDecodable b
  unfolding encode_entries decode_snapshot
  entries-IsDecodable [] b q h = (
    coded none s.writes_enabled,
    rw (← ok-injective _ b h, code_flag-flag_code s.writes_enabled) refl,
    record { views = λ j. rw q; flag = refl; no_entries = λ _. refl },
  )
  entries-IsDecodable ((k, v) ∷ []) b q h =
      one-IsDecodable (String-cases k "k") (String-cases v "v") b q h
  entries-IsDecodable (x ∷ y ∷ m) b q h = cc

pub snapshot_codec :
    (s : KvfsmSnapshot) (b : Bytes)
    → encode_snapshot s ≡ ok b
    → (t : KvfsmSnapshot) × (decode_snapshot b ≡ ok t) × Decoded s t
unfolding encode_snapshot
snapshot_codec s b h = entries-IsDecodable s (contents s.kv_store) b refl h

abbrev pub codes : List Bytes
codes = (0 ∷ []) ∷ (1 ∷ []) ∷ (2 ∷ []) ∷ (3 ∷ []) ∷ (4 ∷ []) ∷ (5 ∷ []) ∷ []

unfoldable pub codec : Proto
unfolding encode_by encode_snapshot decode_snapshot decode_entry
codec = record {
  marshal_entry = encode_by codes;
  unmarshal_entry = decode_entry;
  marshal_snapshot = encode_snapshot;
  unmarshal_snapshot = decode_snapshot;
  entry_round_trip = encode_by-decode codes;
  snapshot_round_trip = snapshot_codec;
}

pub marshal_entry-leader : (e : KvfsmLogEntry) → codec.marshal_entry e ≢ err not_leader
unfolding codec
marshal_entry-leader e = encode_by-leader codes e

pub codec_set : codec.marshal_entry (set_entry "k" "v") ≡ ok (0 ∷ [])
unfolding codec
codec_set = refl

pub codec_delete : codec.marshal_entry (delete_entry "k") ≡ ok (1 ∷ [])
unfolding codec
codec_delete = refl

codec_toggle : codec.marshal_entry (toggle_entry false) ≡ ok (3 ∷ [])
unfolding codec
codec_toggle = refl

codec_snapshot : codec.marshal_snapshot (coded (some sample_map) true) ≡ ok (1 ∷ 1 ∷ [])
unfolding codec
codec_snapshot = refl
