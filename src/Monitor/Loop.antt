-- ===== src/Monitor/Loop.antt =====
-- keel_verifier/monitor.py: the pins, the state file and the cycles of `cmd_monitor`. The state
-- file is the JSON document in it, `none` when there is no file. What a cycle fetches is a function
-- of its index, `none` when the request fails. Printing and sleeping are left out.
use keel_verifier.Base.{
  ℕ, zero, suc, ◌+◌, String, ◌≡◌, ◌≢◌, refl, List, [], ◌∷◌, ◌⊎◌, inl, inr, arith, Bool, true, false,
  ◌||◌, Option, none, some,
}
use keel_verifier.Json.{Json, str, obj, Fields, end, field, get, eq_str, is_null}
use keel_verifier.Hex.{Bytes}
use keel_verifier.Monitor.{
  MonitorError, Verdict, pin_root_hash, pin_tree_size, verify_consistency_surface,
}

abbrev pin_schema : String
pin_schema = "keel.customer_checkpoint_pin.v1"

-- What a loader gives: a value, or a ValueError.
pub data Loaded {ℓ} (A : Type ℓ) : Type ℓ where
  loaded : A → Loaded A
  refused : Loaded A

abbrev supported_pin : Fields → Loaded (Option Fields)
supported_pin pin = elim (is_null (get pin "schema") || eq_str (get pin "schema") pin_schema) [
  | true ↦ loaded (some pin)
  | false ↦ refused
]

-- The argument is the document in the pin file, if a path was given.
unfoldable pub load_customer_pin : Option Json → Loaded (Option Fields)
load_customer_pin none = loaded none
load_customer_pin (some (obj pin)) = supported_pin pin
load_customer_pin (some _) = refused

unfoldable pub load_state : Option Json → Loaded (Option Fields)
load_state none = loaded none
load_state (some (obj d)) = loaded (some d)
load_state (some _) = refused

-- The document that `_write_state` leaves in the file for a tree head.
abbrev pub pin_document : Fields → Json
pin_document head = obj (
    field "schema" (str pin_schema) (
      field "checkpoint_log_tree_size" (get head "tree_size")
        (field "checkpoint_log_root_hash" (get head "root_hash") end)))

abbrev write_head : Option Json → Json → Option Json
write_head state (obj head) = some (pin_document head)
write_head state _ = state

unfoldable pub write_state : Option Json → Fields → Option Json
write_state state surface = write_head state (get surface "tree_head")

abbrev complete_pin : Fields → Option String → Option ℕ → Option Fields
complete_pin d (some root) (some size) = some d
complete_pin d _ _ = none

unfoldable pub state_as_pin : Option Fields → Option Fields
state_as_pin none = none
state_as_pin (some d) = complete_pin d (pin_root_hash d) (pin_tree_size d)

-- `customer_pin or previous_pin`: an empty pin object does not count.
unfoldable pub active_pin : Option Fields → Option Fields → Option Fields
active_pin none previous = previous
active_pin (some end) previous = previous
active_pin (some (field k v d)) previous = some (field k v d)

pub data Outcome : Type 0 where
  finished crashed fetch_failed : Outcome
  alert : List MonitorError → Outcome

pub data Cycle : Type 0 where
  ends : Outcome → Cycle
  goes_on : Option Json → Cycle

-- `next` is the state that an accepted surface leaves.
abbrev after_verdict : List MonitorError → Option Json → Cycle
after_verdict [] next = goes_on next
after_verdict (e ∷ es) next = ends (alert (e ∷ es))

-- The surface with another value under "tree_head".
abbrev pub with_tree_head : Json → Fields → Fields
with_tree_head head surface = field "tree_head" head surface

module _ (sha256 : Bytes → Bytes) (fetch : ℕ → Option Fields) (customer_pin : Option Fields)
    (require_rekor : Bool) where
  abbrev pub judged : Option Fields → Fields → Verdict
  judged previous surface =
      verify_consistency_surface sha256 surface (active_pin customer_pin (state_as_pin previous))
        require_rekor

  -- The body of the loop.
  unfoldable pub one_cycle : ℕ → Option Json → Cycle
  one_cycle index state = elim (load_state state) [
    | refused ↦ ends crashed
    | loaded previous ↦ elim (fetch index) [
      | none ↦ ends fetch_failed
      | some surface ↦ after_verdict (judged previous surface).errors (write_state state surface)
    ]
  ]

  -- `n` cycles are left, and `index` is the next.
  unfoldable pub run_cycles : ℕ → ℕ → Option Json → Outcome × Option Json
  run_cycles zero index state = (finished, state)
  run_cycles (suc n) index state = elim (one_cycle index state) [
    | ends outcome ↦ (outcome, state)
    | goes_on next ↦ run_cycles n (index + 1) next
  ]

  -- How a cycle goes on.
  pub GoesOn : ℕ → Option Json → Option Json → Type 0
  GoesOn index state next =
      (previous : Option Fields) × (surface : Fields) × (load_state state ≡ loaded previous)
      × (fetch index ≡ some surface)
      × ((judged previous surface).errors ≡ [])
      × (write_state state surface ≡ next)

  after_verdict-goes_on :
      (es : List MonitorError) (s next : Option Json)
      → after_verdict es s ≡ goes_on next
      → (es ≡ []) × (s ≡ next)
  after_verdict-goes_on [] s next e = (refl, cc)
  after_verdict-goes_on (x ∷ es) s next e = cc

  one_cycle-GoesOn :
      (index : ℕ) (state next : Option Json)
      → one_cycle index state ≡ goes_on next
      → GoesOn index state next
  unfolding GoesOn one_cycle
  one_cycle-GoesOn index state next e = by_load (load_state state) (fetch index) refl refl
    where
      by_load :
          (l : Loaded (Option Fields)) (f : Option Fields)
          → load_state state ≡ l
          → fetch index ≡ f
          → GoesOn index state next
      by_load refused f p q = cc (rw (p, one_cycle) at e)
      by_load (loaded previous) none p q = cc (rw (p, q, one_cycle) at e)
      by_load (loaded previous) (some surface) p q =
          let r = after_verdict-goes_on _ _ _ (rw (p, q, one_cycle) at e) in
          (previous, surface, p, q, r.0, r.1)

  -- Cycles that accept: each loads the state, fetches a surface and finds no error in it.
  pub data Accepts : ℕ → ℕ → Option Json → Option Json → Type 0 where
    stop : (index : ℕ) (state : Option Json) → Accepts zero index state state
    cycle :
        {n index : ℕ} {state next final : Option Json}
        → GoesOn index state next
        → Accepts n (index + 1) next final
        → Accepts (suc n) index state final

  one_cycle-cases :
      (c : Cycle) → ((o : Outcome) × (c ≡ ends o)) ⊎ ((s : Option Json) × (c ≡ goes_on s))
  one_cycle-cases (ends o) = inl (o, refl)
  one_cycle-cases (goes_on s) = inr (s, refl)

  run_cycles-goes_on :
      (n index : ℕ) (state next : Option Json)
      → one_cycle index state ≡ goes_on next
      → run_cycles (suc n) index state ≡ run_cycles n (index + 1) next
  unfolding run_cycles
  run_cycles-goes_on n index state next c = rw (c, run_cycles)

  run_cycles-ends :
      (n index : ℕ) (state : Option Json) (o : Outcome)
      → one_cycle index state ≡ ends o
      → run_cycles (suc n) index state ≡ (o, state)
  unfolding run_cycles
  run_cycles-ends n index state o c = rw (c, run_cycles)

  -- A cycle that ends the loop does not report success.
  one_cycle-ne-finished : (index : ℕ) (state : Option Json) → one_cycle index state ≢ ends finished
  unfolding one_cycle
  one_cycle-ne-finished index state e = ground arith

  -- A run that finishes has gone through cycles that each accepted the surface they fetched.
  pub run_cycles-Accepts :
      (n index : ℕ) (state : Option Json)
      → (run_cycles n index state).0 ≡ finished
      → Accepts n index state (run_cycles n index state).1
  run_cycles-Accepts zero index state e = unfold run_cycles in stop index state
  run_cycles-Accepts (suc n) index state e = elim (one_cycle-cases (one_cycle index state)) [
    | inl (o, c) ↦
        absurd (one_cycle-ne-finished index state (cc (c, e, run_cycles-ends n index state o c)))
    | inr (next, c) ↦ rw (run_cycles-goes_on n index state next c) (
        cycle (one_cycle-GoesOn index state next c) (
          run_cycles-Accepts n (index + 1) next
            (rw (run_cycles-goes_on n index state next c) at e)))
  ]

-- What the surface says under "tree_head" is not checked: another value there changes no verdict,
-- and it is what the state file then holds.
pub tree_head_unchecked :
    (sha256 : Bytes → Bytes) (surface head : Fields) (pin : Option Fields) (rekor : Bool)
    (state : Option Json)
    → (verify_consistency_surface sha256 (with_tree_head (obj head) surface) pin rekor
        ≡ verify_consistency_surface sha256 surface pin rekor)
      × (write_state state (with_tree_head (obj head) surface) ≡ some (pin_document head))
unfolding verify_consistency_surface write_state
tree_head_unchecked sha256 surface head pin rekor state = (refl, refl)
