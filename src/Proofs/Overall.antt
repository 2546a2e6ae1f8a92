-- ===== src/Proofs/Overall.antt =====
-- How the results of the recorded chains make the verdict of a refusal.
use keel_verifier.Base.{◌≡◌, refl, Bool, true, false, List, [], ◌∷◌, ◌++◌, Each, if◌then◌else◌}
use keel_verifier.Proofs.Recorded.{Failure}
use keel_verifier.Proofs.Denial.{
  ChainResult, explained, edges_missing, unexplained, chain_raises, failed, Overall, all_explained,
  disproved, insufficient, judged, pack_raises, next_overall, overall_of, any_raised, conclude,
}

overall_of-append :
    (o : Overall) (rs ss : List ChainResult)
    → overall_of o (rs ++ ss) ≡ overall_of (overall_of o rs) ss
unfolding overall_of
overall_of-append o [] ss = refl
overall_of-append o (r ∷ rs) ss = overall_of-append (next_overall o r) rs ss

-- The verdict depends on the order of the chains. A last chain whose edges are missing leaves
-- insufficient evidence, also behind a chain that fails; a last chain that fails is a disproof, also
-- behind a chain whose edges are missing.
pub last_chain_decides :
    (o : Overall) (rs : List ChainResult) (f : Failure)
    → (overall_of o (rs ++ (edges_missing ∷ [])) ≡ insufficient)
      × (overall_of o (rs ++ (failed f ∷ [])) ≡ disproved)
unfolding overall_of next_overall
last_chain_decides o rs f = (
  rw (overall_of-append o rs (edges_missing ∷ [])) refl,
  rw (overall_of-append o rs (failed f ∷ [])) refl,
)

-- Once the verdict is another one, it is never again that all chains are explained.
never_again :
    (o : Overall) (rs : List ChainResult) → overall_of o rs ≡ all_explained → o ≡ all_explained
unfolding overall_of next_overall
never_again o [] h = h
never_again all_explained (r ∷ rs) h = refl
never_again disproved (explained ∷ rs) h = never_again disproved rs h
never_again disproved (edges_missing ∷ rs) h = cc (never_again insufficient rs h)
never_again disproved (unexplained ∷ rs) h = never_again disproved rs h
never_again disproved (chain_raises ∷ rs) h = never_again disproved rs h
never_again disproved (failed f ∷ rs) h = never_again disproved rs h
never_again insufficient (explained ∷ rs) h = never_again insufficient rs h
never_again insufficient (edges_missing ∷ rs) h = never_again insufficient rs h
never_again insufficient (unexplained ∷ rs) h = never_again insufficient rs h
never_again insufficient (chain_raises ∷ rs) h = never_again insufficient rs h
never_again insufficient (failed f ∷ rs) h = cc (never_again disproved rs h)

abbrev pub IsExplainedResult : ChainResult → Type 0
IsExplainedResult r = r ≡ explained

explained-each :
    (rs : List ChainResult)
    → any_raised rs ≡ false
    → overall_of all_explained rs ≡ all_explained
    → Each IsExplainedResult rs
unfolding overall_of next_overall
explained-each [] e h = tt
explained-each (explained ∷ rs) e h = (refl, explained-each rs e h)
explained-each (edges_missing ∷ rs) e h = cc (never_again insufficient rs h)
explained-each (unexplained ∷ rs) e h = cc (never_again insufficient rs h)
explained-each (chain_raises ∷ rs) e h = cc
explained-each (failed f ∷ rs) e h = cc (never_again disproved rs h)

-- A refusal is supported when every chain is explained.
pub conclude-explained :
    (rs ss : List ChainResult)
    → conclude rs ≡ judged all_explained ss
    → Each IsExplainedResult rs × (rs ≡ ss)
conclude-explained rs ss h = by_raised (any_raised rs) refl h
  where
    by_raised :
        (b : Bool)
        → any_raised rs ≡ b
        → (if b then pack_raises else judged (overall_of all_explained rs) rs)
          ≡ judged all_explained ss
        → Each IsExplainedResult rs × (rs ≡ ss)
    by_raised true e k = cc
    by_raised false e k =
        let same : overall_of all_explained rs ≡ all_explained = cc k in
        (explained-each rs e same, cc k)
