-- ===== src/Authority/Chain/Complete.antt =====
-- An authorised document is supported: the checks ask for nothing more than the specification says.
use keel_verifier.Base.{
  String, ◌≡◌, ◌≤◌, ◌↔◌, refl, true, not, Option, none, some, List, [], ◌∷◌, Each, ap, arith, ℕ,
}
use text.Mathlib.TextEquality.{eq_iff}
use keel_verifier.Json.{Json, Fields, get}
use keel_verifier.Authority.Outcome.{
  Outcome, supported, require_pass, require_some_pass, refuse_if_pass, need_pass,
}
use keel_verifier.Authority.Library.{Library}
use keel_verifier.Authority.Keys.{authority_key_records}
use keel_verifier.Authority.Edges.{Edge}
use keel_verifier.Authority.Chain.{is_text, by_permit, adjudicate_permit_authority_chain_v1}
use keel_verifier.Authority.Chain.Codes.{Code}
use keel_verifier.Authority.Chain.Signed.{check_edge, check_edges, verifies_under}
use keel_verifier.Authority.Chain.Payload.{last_edge}
use keel_verifier.Authority.Chain.Narrowing.{
  check_scope, check_budget, check_policy, check_window, check_narrower, walk_edges,
}
use keel_verifier.Authority.Chain.Action.{in_window, check_time, check_action}
use keel_verifier.Authority.Chain.Spec.{
  IsSigned, IsWithin, IsLess, IsDuring, IsNarrower, Follows, IsNew, Links, no_edge, link,
}
use keel_verifier.Authority.Chain.Authorised.{IsRequested, IsTimely, IsAuthorised}
use keel_verifier.Authority.Chain.Laws.{adjudicate-IsAuthorised}

module _ (library : Library) where
  IsSigned-check_edge :
      (edge : Edge) (next : Outcome Code)
      → IsSigned library edge
      → next ≡ supported
      → check_edge library edge next ≡ supported
  unfolding check_edge
  IsSigned-check_edge edge next s h =
      let under : verifies_under library _ edge s.bytes ≡ true = rw s.has_key s.verified in
      need_pass _ s.encoded (
        require_pass _ _ s.digest (
          need_pass _ s.has_delegator (
            require_pass _ _ s.bound (
              require_pass _ _ under (
                require_pass _ _ s.valid (need_pass _ s.has_scope (require_pass _ _ s.known h)))))))

  IsSigned-check_edges :
      (edges : List Edge) (next : Outcome Code)
      → Each (IsSigned library) edges
      → next ≡ supported
      → check_edges library edges next ≡ supported
  IsSigned-check_edges [] next s h = h
  IsSigned-check_edges (edge ∷ edges) next s h =
      IsSigned-check_edge edge _ s.0 (IsSigned-check_edges edges next s.1 h)

  IsWithin-check_scope :
      (child parent : Fields) (next : Outcome Code)
      → IsWithin library.lower child parent
      → next ≡ supported
      → check_scope library child parent next ≡ supported
  IsWithin-check_scope child parent next w h = require_pass _ _ w.verbs (
      require_some_pass _ _ w.classes (
        require_pass _ _ w.resources
          (require_some_pass _ _ w.data_classes (require_some_pass _ _ w.constraints h))))

  IsLess-check_policy :
      (child parent : Fields) (next : Outcome Code)
      → IsLess child parent
      → next ≡ supported
      → check_budget library
          (get parent "budget_partition")
          (get child "budget_partition")
          (check_policy library child parent next)
        ≡ supported
  IsLess-check_policy child parent next l h = require_pass _ _ (ap not l.envelope) (
      refuse_if_pass _ _ l.budget (
        need_pass _ l.has_depth (
          need_pass _ l.has_parent_depth (
            require_some_pass _ _ l.deeper (
              need_pass _ l.has_parent_max
                (need_pass _ l.has_max (refuse_if_pass _ _ l.narrower h)))))))

  IsDuring-check_window :
      (child parent : Fields) (next : Outcome Code)
      → IsDuring library child parent
      → next ≡ supported
      → check_window library child parent next ≡ supported
  IsDuring-check_window child parent next d h = need_pass _ d.has_start (
      need_pass _ d.has_parent_start
        (need_pass _ d.has_stop (need_pass _ d.has_parent_stop (refuse_if_pass _ _ d.inside h))))

  IsNarrower-check_narrower :
      (previous edge : Edge) (next : Outcome Code)
      → IsNarrower library previous edge
      → next ≡ supported
      → check_narrower library (some previous) edge next ≡ supported
  IsNarrower-check_narrower previous edge next n h = need_pass _ n.has_parent_scope (
      need_pass _ n.has_scope (
        IsWithin-check_scope n.scope n.parent_scope _ n.within (
          IsLess-check_policy edge.payload previous.payload _ n.less
            (IsDuring-check_window edge.payload previous.payload next n.during h))))

  -- The checks of one edge, the same with and without an edge before it.
  Links-step :
      (seen : List Json) (previous : Option Edge) (edge : Edge) (edges : List Edge)
      (next : Outcome Code) (new : IsNew seen edge)
      → Follows library previous edge
      → walk_edges library (get new.delegate "principal_id" ∷ seen) (some edge) edges next
        ≡ supported
      → walk_edges library seen previous (edge ∷ edges) next ≡ supported
  unfolding walk_edges
  Links-step seen none edge edges next new f h =
      need_pass _ new.has_delegate (refuse_if_pass _ _ new.unseen h)
  Links-step seen (some previous) edge edges next new f h = require_pass _ _ f.linked.delegator (
      require_pass _ _ f.linked.parent (
        need_pass _ new.has_delegate
          (refuse_if_pass _ _ new.unseen (IsNarrower-check_narrower previous edge _ f h))))

  Links-walk_edges :
      (seen : List Json) (previous : Option Edge) (edges : List Edge) (next : Outcome Code)
      → Links library seen previous edges
      → next ≡ supported
      → walk_edges library seen previous edges next ≡ supported
  unfolding walk_edges
  Links-walk_edges seen previous [] next no_edge h = h
  Links-walk_edges seen previous (edge ∷ edges) next (link f new rest) h =
      Links-step seen previous edge edges next new f
        (Links-walk_edges (get new.delegate "principal_id" ∷ seen) (some edge) edges next rest h)

in_window_intro :
    (t s u : Option ℕ) (time start stop : ℕ)
    → t ≡ some time
    → s ≡ some start
    → u ≡ some stop
    → start ≤ time
    → time ≤ stop
    → in_window t s u ≡ true
in_window_intro t s u time start stop a b c h k = rw (a, b, c) (ground arith)

pub is_text_intro : (o : Option String) (s : String) → o ≡ some s → is_text o s ≡ true
is_text_intro o s h = rw h ((eq_iff s s).1 refl)

module _ (library : Library) (entries : List Fields) (input_doc : Fields) where
  IsRequested-check_action :
      (root : Edge) (edges : List Edge)
      → IsRequested library.lower input_doc (last_edge root edges)
      → check_action library.lower input_doc root edges ≡ supported
  IsRequested-check_action root edges r =
      rw (r.has_map, r.kind, r.mapped)
        (need_pass _ r.has_scope
          (require_some_pass _ _ r.in_classes (require_pass _ _ r.in_verbs refl)))

  IsTimely-check_time :
      (payload : Fields) (next : Outcome Code)
      → IsTimely library input_doc payload
      → next ≡ supported
      → check_time library input_doc payload next ≡ supported
  IsTimely-check_time payload next t h =
      require_pass _ _
        (in_window_intro _ _ _ t.time t.start t.stop t.resolves t.starts t.stops t.after_start
          t.before_stop)
        h

  IsAuthorised-by_permit :
      IsAuthorised library entries input_doc
      → by_permit library entries input_doc (get input_doc "permit") ≡ supported
  IsAuthorised-by_permit a =
      rw (a.has_permit, a.digest, a.has_chain, a.in_order, a.has_payload)
        (require_pass _ _ (is_text_intro _ _ a.version) (
          IsSigned-check_edges library (a.root ∷ a.edges) _ a.signed (
            need_pass _ a.encoded (
              require_pass _ _ ((eq_iff _ _).1 refl) (
                need_pass _ a.recomputed (
                  require_pass _ _ a.matching (
                    require_pass _ _ a.subject (
                      require_some_pass _ _ a.anchored (
                        need_pass _ a.first (
                          Links-walk_edges library a.seen none (a.root ∷ a.edges) _ a.links (
                            IsTimely-check_time a.payload _ a.timely
                              (IsRequested-check_action a.root a.edges a.requested))))))))))))

-- The claim is supported exactly when the document is authorised, under the keys that the trust root or
-- the manifest gives.
pub adjudicate_iff :
    (library : Library) (load : String → Option (List Fields)) (input_doc : Fields)
    (key_manifest_source : Option String) (trust_root : Option Fields)
    → (adjudicate_permit_authority_chain_v1 library load input_doc key_manifest_source trust_root
        ≡ supported)
      ↔ IsAuthorised library (authority_key_records load trust_root key_manifest_source) input_doc
unfolding adjudicate_permit_authority_chain_v1
adjudicate_iff library load input_doc source root = (
  adjudicate-IsAuthorised library load input_doc source root,
  IsAuthorised-by_permit library _ input_doc,
)
