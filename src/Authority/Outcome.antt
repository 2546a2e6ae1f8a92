-- ===== src/Authority/Outcome.antt =====
-- What an adjudication of verifier.py returns: a supported claim, a claim with a reason code, or the
-- exception that a value of the wrong shape raises. Its checks are chained as the code's returns are.
use keel_verifier.Base.{◌≡◌, refl, Bool, true, false, Option, none, some}

pub data Outcome (Code : Type 0) : Type 0 where
  supported raised : Outcome Code
  refused : Code → Outcome Code

module _ {Code : Type 0} where
  -- `if not test: return refused(code)`
  abbrev pub require : Bool → Code → Outcome Code → Outcome Code
  require true code next = next
  require false code next = refused code

  -- The same for a test that may raise.
  abbrev pub require_some : Option Bool → Code → Outcome Code → Outcome Code
  require_some none code next = raised
  require_some (some b) code next = require b code next

  -- `if test: return refused(code)` for a test that may raise.
  abbrev pub refuse_if : Option Bool → Code → Outcome Code → Outcome Code
  refuse_if none code next = raised
  refuse_if (some true) code next = refused code
  refuse_if (some false) code next = next

  -- An expression that may raise, and the code behind it.
  abbrev pub need : {A : Type 0} → Option A → (A → Outcome Code) → Outcome Code
  need none next = raised
  need (some a) next = next a

  pub require-supported :
      (b : Bool) (code : Code) (next : Outcome Code)
      → require b code next ≡ supported
      → (b ≡ true) × (next ≡ supported)
  require-supported true code next h = (refl, h)
  require-supported false code next h = cc

  pub require_some-supported :
      (t : Option Bool) (code : Code) (next : Outcome Code)
      → require_some t code next ≡ supported
      → (t ≡ some true) × (next ≡ supported)
  require_some-supported none code next h = cc
  require_some-supported (some true) code next h = (refl, h)
  require_some-supported (some false) code next h = cc

  pub refuse_if-supported :
      (t : Option Bool) (code : Code) (next : Outcome Code)
      → refuse_if t code next ≡ supported
      → (t ≡ some false) × (next ≡ supported)
  refuse_if-supported none code next h = cc
  refuse_if-supported (some true) code next h = cc
  refuse_if-supported (some false) code next h = (refl, h)

  pub need-supported :
      {A : Type 0} (o : Option A) (next : A → Outcome Code)
      → need o next ≡ supported
      → (a : A) × (o ≡ some a) × (next a ≡ supported)
  need-supported none next h = cc
  need-supported (some a) next h = (a, refl, h)

  pub require_pass :
      {b : Bool} (code : Code) (next : Outcome Code)
      → b ≡ true
      → next ≡ supported
      → require b code next ≡ supported
  require_pass code next e h = rw e h

  pub require_some_pass :
      {t : Option Bool} (code : Code) (next : Outcome Code)
      → t ≡ some true
      → next ≡ supported
      → require_some t code next ≡ supported
  require_some_pass code next e h = rw e h

  pub refuse_if_pass :
      {t : Option Bool} (code : Code) (next : Outcome Code)
      → t ≡ some false
      → next ≡ supported
      → refuse_if t code next ≡ supported
  refuse_if_pass code next e h = rw e h

  pub need_pass :
      {A : Type 0} {o : Option A} {a : A} (next : A → Outcome Code)
      → o ≡ some a
      → next a ≡ supported
      → need o next ≡ supported
  need_pass next e h = rw e h
