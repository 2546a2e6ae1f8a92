-- ===== src/Authority/Temporal.antt =====
-- `_adjudicate_authority_revocation_temporal_v1`: no edge was signed once its key was revoked or
-- compromised. A refusal with no reason code is the one for missing evidence.
use keel_verifier.Base.{
  ℕ, String, ◌≡◌, ◌↔◌, ◌<◌, refl, Bool, true, false, Option, none, some, List, [], ◌∷◌, Each, arith,
  if◌then◌else◌,
}
use keel_verifier.Json.{Fields, get}
use keel_verifier.Trust.Window.{Stamp, parse_iso_or_none, reached}
use keel_verifier.Authority.Outcome.{Outcome, supported, refused}
use keel_verifier.Authority.Library.{Library}
use keel_verifier.Authority.Keys.{
  TemporalCode, signed_code, temporal_code_at, authority_key_records, revocation_temporal_code,
}
use keel_verifier.Authority.Edges.{Edge, chain_edges_in_order}

abbrev after_code :
    Option TemporalCode → Outcome (Option TemporalCode) → Outcome (Option TemporalCode)
after_code none next = next
after_code (some code) next = refused (some code)

module _ (fromisoformat : String → Option Stamp) where
  abbrev judge_edges : List Edge → Outcome (Option TemporalCode)
  judge_edges [] = supported
  judge_edges (edge ∷ edges) =
      after_code (revocation_temporal_code fromisoformat edge.payload edge.key_record)
        (judge_edges edges)

  abbrev by_edges : Option (List Edge) → Outcome (Option TemporalCode)
  by_edges none = refused none
  by_edges (some []) = refused none
  by_edges (some (edge ∷ edges)) = judge_edges (edge ∷ edges)

unfoldable pub adjudicate_authority_revocation_temporal_v1 :
    (library : Library) (load : String → Option (List Fields)) (input_doc : Fields)
    (key_manifest_source : Option String) (trust_root : Option Fields)
    → Outcome (Option TemporalCode)
unfolding chain_edges_in_order
adjudicate_authority_revocation_temporal_v1 library load input_doc key_manifest_source trust_root =
    by_edges library.fromisoformat
      (chain_edges_in_order (authority_key_records load trust_root key_manifest_source) input_doc)

-- The edge was signed before the time under the field of its key's record, if the two can be read.
abbrev pub IsBefore : (String → Option Stamp) → String → Edge → Type 0
IsBefore fromisoformat name edge =
    (signed at : ℕ)
    → parse_iso_or_none fromisoformat (get edge.payload "signed_at") ≡ some signed
    → parse_iso_or_none fromisoformat (get edge.key_record name) ≡ some at
    → signed < at

pub record IsUntainted (fromisoformat : String → Option Stamp) (edge : Edge) : Type 0 where
  pub before_revocation : IsBefore fromisoformat "revoked_at" edge
  pub before_compromise : IsBefore fromisoformat "compromised_at" edge

not_reached : (o : Option ℕ) (s : ℕ) → reached o s ≡ false → (a : ℕ) → o ≡ some a → s < a
not_reached none s h a e = cc
not_reached (some b) s h a e = let less : s < b = ground arith in ground arith

reached_not : (o : Option ℕ) (s : ℕ) → ((a : ℕ) → o ≡ some a → s < a) → reached o s ≡ false
reached_not none s h = refl
reached_not (some b) s h = let less = h b refl in ground arith

pair_none :
    (r c : Option ℕ) (s : ℕ)
    → temporal_code_at r c s ≡ none
    → (reached r s ≡ false) × (reached c s ≡ false)
pair_none r c s h = tests (reached r s) (reached c s) h
  where
    tests :
        (a b : Bool)
        → (if a
            then some TemporalCode.signed_after_revocation
            else if b
            then some TemporalCode.compromised_key_taint
            else none)
          ≡ none
        → (a ≡ false) × (b ≡ false)
    tests true b k = cc
    tests false true k = cc
    tests false false k = (refl, refl)

module _ (s r c : Option ℕ) where
  signed_code-none :
      signed_code s r c ≡ none
      → (signed at : ℕ) → s ≡ some signed
      → (r ≡ some at → signed < at) × (c ≡ some at → signed < at)
  signed_code-none h signed at e =
      let both = pair_none r c signed (rw e at h) in
      (not_reached r signed both.0 at, not_reached c signed both.1 at)

  signed_code_intro :
      ((signed at : ℕ) → s ≡ some signed → r ≡ some at → signed < at)
      → ((signed at : ℕ) → s ≡ some signed → c ≡ some at → signed < at)
      → signed_code s r c ≡ none
  signed_code_intro h k = by_signed s refl
    where
      by_signed : (o : Option ℕ) → s ≡ o → signed_code o r c ≡ none
      by_signed none e = refl
      by_signed (some t) e =
          rw (reached_not r t (λ a. h t a e), reached_not c t (λ a. k t a e)) refl

module _ (fromisoformat : String → Option Stamp) where
  revocation_temporal_code-IsUntainted :
      (edge : Edge)
      → revocation_temporal_code fromisoformat edge.payload edge.key_record ≡ none
      → IsUntainted fromisoformat edge
  unfolding revocation_temporal_code
  revocation_temporal_code-IsUntainted edge h = record {
    before_revocation = λ signed at s r. (signed_code-none _ _ _ h signed at s).0 r;
    before_compromise = λ signed at s c. (signed_code-none _ _ _ h signed at s).1 c;
  }

  IsUntainted-revocation_temporal_code :
      (edge : Edge)
      → IsUntainted fromisoformat edge
      → revocation_temporal_code fromisoformat edge.payload edge.key_record ≡ none
  unfolding revocation_temporal_code
  IsUntainted-revocation_temporal_code edge u =
      signed_code_intro _ _ _ u.before_revocation u.before_compromise

  after_code-supported :
      (o : Option TemporalCode) (next : Outcome (Option TemporalCode))
      → after_code o next ≡ supported
      → (o ≡ none) × (next ≡ supported)
  after_code-supported none next h = (refl, h)
  after_code-supported (some code) next h = cc

  judge_edges-IsUntainted :
      (edges : List Edge)
      → judge_edges fromisoformat edges ≡ supported
      → Each (IsUntainted fromisoformat) edges
  judge_edges-IsUntainted [] h = tt
  judge_edges-IsUntainted (edge ∷ edges) h =
      let (here, rest) = after_code-supported _ _ h in
      (revocation_temporal_code-IsUntainted edge here, judge_edges-IsUntainted edges rest)

  IsUntainted-judge_edges :
      (edges : List Edge)
      → Each (IsUntainted fromisoformat) edges
      → judge_edges fromisoformat edges ≡ supported
  IsUntainted-judge_edges [] u = refl
  IsUntainted-judge_edges (edge ∷ edges) u =
      rw (IsUntainted-revocation_temporal_code edge u.0) (IsUntainted-judge_edges edges u.1)

  -- The edges of a chain that lists at least one, none of them tainted.
  abbrev pub IsUntaintedChain : Option (List Edge) → Type 0
  IsUntaintedChain o =
      (edge : Edge) × (edges : List Edge) × (o ≡ some (edge ∷ edges))
      × Each (IsUntainted fromisoformat) (edge ∷ edges)

  by_edges-IsUntaintedChain :
      (o : Option (List Edge)) → by_edges fromisoformat o ≡ supported → IsUntaintedChain o
  by_edges-IsUntaintedChain none h = cc
  by_edges-IsUntaintedChain (some []) h = cc
  by_edges-IsUntaintedChain (some (edge ∷ edges)) h =
      (edge, edges, refl, judge_edges-IsUntainted (edge ∷ edges) h)

  IsUntaintedChain-by_edges :
      (o : Option (List Edge)) → IsUntaintedChain o → by_edges fromisoformat o ≡ supported
  IsUntaintedChain-by_edges o (edge, edges, e, u) = rw e (IsUntainted-judge_edges (edge ∷ edges) u)

-- The claim is supported exactly when the chain lists an edge and each of its edges was signed before
-- its key was revoked and before it was compromised, as far as these times can be read.
pub temporal_iff :
    (library : Library) (load : String → Option (List Fields)) (input_doc : Fields)
    (key_manifest_source : Option String) (trust_root : Option Fields)
    → (adjudicate_authority_revocation_temporal_v1 library load input_doc key_manifest_source
          trust_root
        ≡ supported)
      ↔ IsUntaintedChain library.fromisoformat (
          chain_edges_in_order
            (authority_key_records load trust_root key_manifest_source)
            input_doc)
unfolding adjudicate_authority_revocation_temporal_v1
temporal_iff library load input_doc source root = (
  by_edges-IsUntaintedChain library.fromisoformat _,
  IsUntaintedChain-by_edges library.fromisoformat _,
)
