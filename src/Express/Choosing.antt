-- ===== src/Express/Choosing.antt =====
-- The loop over the routes in web/restinio/restinio/router/express.hpp.
use prj.Prelude.{◌≡◌, refl, ap, ◌↔◌, Option, none, some, List, [], ◌∷◌, ◌++◌, Bytes, All}
use prj.Prelude.Outcome.{ok}
use prj.Prelude.Throwing.{>>=-eq-ok}
use prj.RouteParams.{RouteParams}
use prj.MethodMatcher.{MethodId}
use prj.Path2Regex.Compile.{RegexEngine}
use prj.Express.{RouteEntry, entry_match, first_match}

module _ (engine : RegexEngine) {H : Type 0} (m : MethodId) (target : Bytes) where
  open engine use {Regex}

  -- An entry that the request does not match.
  abbrev pub Misses : RouteEntry Regex H → Type 0
  Misses entry = entry_match engine entry m target ≡ ok none

  -- The entries of which the first to match has this handler and these parameters.
  pub record Chooses (entries : List (RouteEntry Regex H)) (h : H) (p : RouteParams) : Type 0 where
    pub earlier : List (RouteEntry Regex H)
    pub entry : RouteEntry Regex H
    pub later : List (RouteEntry Regex H)
    pub split : entries ≡ earlier ++ entry ∷ later
    pub all_miss : All Misses earlier
    pub matches : entry_match engine entry m target ≡ ok (some p)
    pub same_handler : entry.route_handler ≡ h

  miss-first_match :
      (entry : RouteEntry Regex H) (entries : List (RouteEntry Regex H))
      → Misses entry
      → first_match engine (entry ∷ entries) m target ≡ first_match engine entries m target
  unfolding first_match
  miss-first_match entry entries e = rw e refl

  -- The entries that miss can be left out.
  pub skip-first_match :
      (earlier entries : List (RouteEntry Regex H))
      → All Misses earlier
      → first_match engine (earlier ++ entries) m target ≡ first_match engine entries m target
  skip-first_match [] entries h = refl
  skip-first_match (e ∷ earlier) entries h =
      rw (miss-first_match e (earlier ++ entries) h.0) (skip-first_match earlier entries h.1)

  hit-first_match :
      (entry : RouteEntry Regex H) (entries : List (RouteEntry Regex H)) (p : RouteParams)
      → entry_match engine entry m target ≡ ok (some p)
      → first_match engine (entry ∷ entries) m target ≡ ok (some (entry.route_handler, p))
  unfolding first_match
  hit-first_match entry entries p e = rw e refl

  Chooses-first_match :
      (entries : List (RouteEntry Regex H)) (h : H) (p : RouteParams)
      → Chooses entries h p
      → first_match engine entries m target ≡ ok (some (h, p))
  Chooses-first_match entries h p c =
      rw
        (
          c.split,
          skip-first_match c.earlier (c.entry ∷ c.later) c.all_miss,
          hit-first_match c.entry c.later p c.matches,
          c.same_handler,
        )
        refl

  cons-Chooses :
      (entry : RouteEntry Regex H) (entries : List (RouteEntry Regex H)) (h : H) (p : RouteParams)
      → Misses entry
      → Chooses entries h p
      → Chooses (entry ∷ entries) h p
  cons-Chooses entry entries h p miss c = record {
    earlier = entry ∷ c.earlier;
    entry = c.entry;
    later = c.later;
    split = ap (◌∷◌ entry) c.split;
    all_miss = (miss, c.all_miss);
    matches = c.matches;
    same_handler = c.same_handler;
  }

  -- What the loop has made of an entry.
  step-Chooses :
      (entry : RouteEntry Regex H) (entries : List (RouteEntry Regex H)) (h : H) (p : RouteParams)
      (r : Option RouteParams)
      → (first_match engine entries m target ≡ ok (some (h, p)) → Chooses entries h p)
      → entry_match engine entry m target ≡ ok r
      → (elim r [
        | some q ↦ ok (some (entry.route_handler, q))
        | none ↦ first_match engine entries m target
      ])
        ≡ ok (some (h, p))
      → Chooses (entry ∷ entries) h p
  step-Chooses entry entries h p none ih one e = cons-Chooses entry entries h p one (ih e)
  step-Chooses entry entries h p (some q) ih one e = record {
    earlier = [];
    entry = entry;
    later = entries;
    split = refl;
    all_miss = tt;
    matches = cc;
    same_handler = cc;
  }

  first_match-Chooses :
      (entries : List (RouteEntry Regex H)) (h : H) (p : RouteParams)
      → first_match engine entries m target ≡ ok (some (h, p))
      → Chooses entries h p
  unfolding first_match
  first_match-Chooses [] h p e = cc
  first_match-Chooses (entry ∷ entries) h p e =
      let (r, one, rest) = >>=-eq-ok (entry_match engine entry m target) _ e in
      step-Chooses entry entries h p r (first_match-Chooses entries h p) one rest

  step-Misses :
      (entry : RouteEntry Regex H) (entries : List (RouteEntry Regex H)) (r : Option RouteParams)
      → (first_match engine entries m target ≡ ok none → All Misses entries)
      → entry_match engine entry m target ≡ ok r
      → (elim r [
        | some q ↦ ok (some (entry.route_handler, q))
        | none ↦ first_match engine entries m target
      ])
        ≡ ok none
      → All Misses (entry ∷ entries)
  step-Misses entry entries none ih one e = (one, ih e)
  step-Misses entry entries (some q) ih one e = cc

  first_match-Misses :
      (entries : List (RouteEntry Regex H))
      → first_match engine entries m target ≡ ok none
      → All Misses entries
  unfolding first_match
  first_match-Misses [] e = tt
  first_match-Misses (entry ∷ entries) e =
      let (r, one, rest) = >>=-eq-ok (entry_match engine entry m target) _ e in
      step-Misses entry entries r (first_match-Misses entries) one rest

  Misses-first_match :
      (entries : List (RouteEntry Regex H))
      → All Misses entries
      → first_match engine entries m target ≡ ok none
  unfolding first_match
  Misses-first_match [] h = refl
  Misses-first_match (entry ∷ entries) h = rw (h.0) (Misses-first_match entries h.1)

  -- The loop over the routes finds a handler and parameters exactly if some route matches with them
  -- and every route before it does not match.
  pub first_match_iff :
      (entries : List (RouteEntry Regex H)) (h : H) (p : RouteParams)
      → (first_match engine entries m target ≡ ok (some (h, p))) ↔ Chooses entries h p
  first_match_iff entries h p = (first_match-Chooses entries h p, Chooses-first_match entries h p)

  -- The loop over the routes ends without a handler exactly if it tries all of them and none matches.
  pub first_match-none_iff :
      (entries : List (RouteEntry Regex H))
      → (first_match engine entries m target ≡ ok none) ↔ All Misses entries
  first_match-none_iff entries = (first_match-Misses entries, Misses-first_match entries)
