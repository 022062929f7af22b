-- ===== src/Blocks/GapFiller/Served.antt =====
-- What a gap filler asks for and reports, against what the node answers.
use kasia_indexer.Prelude.{
  ◌≡◌, ◌∙◌, refl, sym, ap, All, ◌++◌, Bool, true, false, some, List, [], ◌∷◌, last?, Bool-cases,
  Option-cases, inl, inr,
}
use kasia_indexer.Prelude.Bytes.{Bytes}
use kasia_indexer.Prelude.Outcome.{
  ok, Ensures, ok-Ensures, err-Ensures, Ensures-apply, bind-Ensures,
}
use kasia_indexer.Db.{Kaspa}
use kasia_indexer.Blocks.{RpcBlock}
use kasia_indexer.Blocks.Process.{GapFillingProgress, update, finished, interrupted, failed}
use kasia_indexer.Blocks.GapFiller.{
  Interrupt, signalled, closed, empty, Answer, blocks, rpc_error, shutting_down, dropped, Reported,
  has_target, sync,
}

module _ (k : Kaspa) where
  -- the pages of blocks in the answers, in order
  abbrev pub pages : List (Interrupt × Answer k) → List (List (RpcBlock k))
  pages [] = []
  pages ((i, blocks bs) ∷ rounds) = bs ∷ pages rounds
  pages ((i, a) ∷ rounds) = pages rounds

  abbrev pub reported_pages : List (GapFillingProgress k) → List (List (RpcBlock k))
  reported_pages [] = []
  reported_pages (update to bs ∷ ps) = bs ∷ reported_pages ps
  reported_pages (finished to bs ∷ ps) = bs ∷ reported_pages ps
  reported_pages (p ∷ ps) = reported_pages ps

  -- the last block of a page, or `from` where the page is empty
  abbrev pub last_of : Bytes → List (RpcBlock k) → Bytes
  last_of from [] = from
  last_of from (b ∷ bs) = last_of b.header.hash bs

  -- where the pages end
  abbrev pub behind : Bytes → List (List (RpcBlock k)) → Bytes
  behind from [] = from
  behind from (bs ∷ more) = behind (last_of from bs) more

  -- One request for each round, from the last block of the pages before it.
  abbrev pub resumes : Bytes → List (Interrupt × Answer k) → List Bytes
  resumes from [] = []
  resumes from (round ∷ rounds) = from ∷ resumes (behind from (pages (round ∷ []))) rounds

  abbrev pub is_asked : Interrupt × Answer k → Bool
  is_asked (empty, a) = true
  is_asked (i, a) = false

  abbrev pub has_error : List (Interrupt × Answer k) → Bool
  has_error [] = false
  has_error ((i, rpc_error) ∷ rounds) = true
  has_error ((i, a) ∷ rounds) = has_error rounds

  abbrev pub IsInterrupted : List (Interrupt × Answer k) → Type 0
  IsInterrupted [] = ⊥
  IsInterrupted (round ∷ rounds) = is_asked round ≡ false

  abbrev pub is_empty_page : List (RpcBlock k) → Bool
  is_empty_page [] = true
  is_empty_page (b ∷ bs) = false

  -- Updates with blocks, none of them the target, and then the one report that ends the task: an
  -- interruption that comes next, an error of the node, or blocks that have the target. Where
  -- there is no such report, there is no further round. All are for this target.
  abbrev pub WellSent :
      Bytes → Bool → List (Interrupt × Answer k) → Bool → List (GapFillingProgress k) → Type 0
  WellSent target error rest returned [] = (returned ≡ false) × (rest ≡ []) × (error ≡ false)
  WellSent target error rest returned (update to bs ∷ ps) =
      (to ≡ target)
      × (has_target k target bs ≡ false)
      × (is_empty_page bs ≡ false)
      × WellSent target error rest returned ps
  WellSent target error rest returned (finished to bs ∷ ps) =
      (to ≡ target)
      × (has_target k target bs ≡ true)
      × (ps ≡ [])
      × (returned ≡ true)
      × (error ≡ false)
  WellSent target error rest returned (interrupted to ∷ ps) =
      (to ≡ target) × (ps ≡ []) × (returned ≡ true) × (error ≡ false) × IsInterrupted rest
  WellSent target error rest returned (failed to ∷ ps) =
      (to ≡ target) × (ps ≡ []) × (returned ≡ true) × (error ≡ true)

  -- The rounds that are served and the others: one request for each that is served, from where the
  -- pages before it end, and one report for each of their pages.
  abbrev pub Fills : Bytes → Bytes → List (Interrupt × Answer k) → Reported k → Type 0
  Fills target from rounds r =
      (served : List (Interrupt × Answer k)) × (rest : List (Interrupt × Answer k)) × (rounds
        ≡ served ++ rest)
      × All (λ round. is_asked round ≡ true) served
      × (r.requests ≡ resumes from served)
      × (reported_pages r.progress ≡ pages served)
      × WellSent target (has_error served) rest r.returned r.progress

  last_of-last? :
      (from : Bytes) (bs : List (RpcBlock k)) (b : RpcBlock k)
      → last? bs ≡ some b
      → last_of from bs ≡ b.header.hash
  last_of-last? from [] b e = cc
  last_of-last? from (c ∷ []) b e = cc
  last_of-last? from (c ∷ d ∷ bs) b e = last_of-last? c.header.hash (d ∷ bs) b e

  last?-page :
      (bs : List (RpcBlock k)) (b : RpcBlock k) → last? bs ≡ some b → is_empty_page bs ≡ false
  last?-page [] b e = cc
  last?-page (c ∷ bs) b e = refl

  sync-Fills-ensured :
      (target : Bytes) (rounds : List (Interrupt × Answer k)) (from : Bytes)
      → Ensures (Fills target from rounds) (sync k target rounds from)
  unfolding sync
  sync-Fills-ensured target [] from =
      ok-Ensures _ _ ([], [], refl, tt, refl, refl, (refl, refl, refl))
  sync-Fills-ensured target ((signalled, answer) ∷ rounds) from =
      ok-Ensures _ _
        ([], (signalled, answer) ∷ rounds, refl, tt, refl, refl, (refl, refl, refl, refl, refl))
  sync-Fills-ensured target ((closed, answer) ∷ rounds) from =
      ok-Ensures _ _
        ([], (closed, answer) ∷ rounds, refl, tt, refl, refl, (refl, refl, refl, refl, refl))
  sync-Fills-ensured target ((empty, rpc_error) ∷ rounds) from =
      ok-Ensures _ _
        ((empty, rpc_error) ∷ [], rounds, refl, (refl, tt), refl, refl, (refl, refl, refl, refl))
  sync-Fills-ensured target ((empty, dropped) ∷ rounds) from = err-Ensures _ _
  sync-Fills-ensured target ((empty, shutting_down) ∷ rounds) from =
      bind-Ensures _ _ _ _ (sync-Fills-ensured target rounds from)
        λ r (served, rest, split, asked, reqs, ps, w). ok-Ensures _ _ (
          (empty, shutting_down) ∷ served,
          rest,
          ap (λ t. (empty, shutting_down) ∷ t) split,
          (refl, asked),
          ap (λ t. from ∷ t) reqs,
          ps,
          w,
        )
  sync-Fills-ensured target ((empty, blocks bs) ∷ rounds) from =
      elim (Bool-cases (has_target k target bs)) [
        | inl t ↦
            rw (t, sync)
              (ok-Ensures _ _ (
                (empty, blocks bs) ∷ [],
                rounds,
                refl,
                (refl, tt),
                refl,
                refl,
                (refl, t, refl, refl, refl),
              ))
        | inr n ↦ elim (Option-cases (last? bs)) [
          | inl e ↦ rw (n, e, sync) (err-Ensures _ _)
          | inr (b, e) ↦
              rw (n, e, sync)
                (bind-Ensures _ _ _ _ (sync-Fills-ensured target rounds b.header.hash)
                  λ r (served, rest, split, asked, reqs, ps, w). ok-Ensures _ _ (
                    (empty, blocks bs) ∷ served,
                    rest,
                    ap (λ t. (empty, blocks bs) ∷ t) split,
                    (refl, asked),
                    ap (λ t. from ∷ t)
                        (reqs ∙ ap (λ f. resumes f served) (sym (last_of-last? from bs b e))),
                    ap (λ t. bs ∷ t) ps,
                    (refl, n, last?-page bs b e, w),
                  ))
        ]
      ]

  -- Let a gap filler not be stopped by a failure. The rounds up to some round are served, none of
  -- them interrupted. It has asked once for each of them, each time from the last block of all the
  -- pages that were answered before, or from the start where there were none; and it has reported
  -- every page that was answered, in order. The reports are all for its target: first updates,
  -- each with at least one block and without the target, and then at most one last report, which
  -- is an interruption in the round that comes next, an error exactly if the node has answered
  -- with one, or the blocks that have the target. It returns exactly if there is a last report;
  -- where there is none, it has served all rounds.
  pub sync-Fills :
      (target : Bytes) (rounds : List (Interrupt × Answer k)) (from : Bytes) (r : Reported k)
      → sync k target rounds from ≡ ok r
      → Fills target from rounds r
  sync-Fills target rounds from r e =
      Ensures-apply (Fills target from rounds) (sync k target rounds from) r
        (sync-Fills-ensured target rounds from) e
