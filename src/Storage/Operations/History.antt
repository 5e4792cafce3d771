-- ===== src/Storage/Operations/History.antt =====
-- Atomicity, durability and unique IDs over histories of calls of the repository.
use goal_starter.Prelude.{
  ◌≡◌, ◌≢◌, refl, subst, ap, sym, ◌∙◌, inl, inr, Option, some, List, [], ◌∷◌, All,
}
use goal_starter.Storage.Repository.{
  StoreError, Write, written, write_failed, sync_failed, Call, Contents, Repository,
  replace_contents,
}
use goal_starter.Storage.Operations.{Op, run, run_all}
use goal_starter.Storage.Operations.Outcome.{IsKeyed, Outcome}
use goal_starter.Storage.Operations.Keyed.{run-Outcome}

-- The file holds what the repository has in memory.
abbrev pub IsSynced : Repository → Type 0
IsSynced r = r.file ≡ r.contents

pub replace_contents-failed :
    (w : Write) (next : Contents) (r : Repository) {e : StoreError}
    → (replace_contents w next r).0 ≡ some e
    → ((replace_contents w next r).1.contents ≡ r.contents)
      × (w ≢ sync_failed → (replace_contents w next r).1.file ≡ r.file)
unfolding replace_contents
replace_contents-failed written next r h = cc
replace_contents-failed write_failed next r h = (refl, λ n. refl)
replace_contents-failed sync_failed next r h = (refl, λ n. absurd (n refl))

replace_contents-IsKeyed :
    (w : Write) (next : Contents) (r : Repository)
    → IsKeyed next
    → IsKeyed r.contents
    → IsKeyed (replace_contents w next r).1.contents
unfolding replace_contents
replace_contents-IsKeyed written next r n h = n
replace_contents-IsKeyed write_failed next r n h = h
replace_contents-IsKeyed sync_failed next r n h = h

replace_contents-IsSynced :
    (w : Write) (next : Contents) (r : Repository)
    → w ≢ sync_failed
    → IsSynced r
    → IsSynced (replace_contents w next r).1
unfolding replace_contents
replace_contents-IsSynced written next r n h = refl
replace_contents-IsSynced write_failed next r n h = h
replace_contents-IsSynced sync_failed next r n h = absurd (n refl)

failed_of :
    (w : Write) (r : Repository) (p : Option StoreError × Repository) {e : StoreError}
    → Outcome w r p
    → p.0 ≡ some e
    → (p.1.contents ≡ r.contents) × (w ≢ sync_failed → p.1.file ≡ r.file)
failed_of w r p (inl same) h = (ap (λ s. s.contents) same, λ n. ap (λ s. s.file) same)
failed_of w r p (inr (next, saved, keyed)) h =
    let (kept, file) = replace_contents-failed w next r (ap (λ q. q.0) (sym saved) ∙ h) in
    (ap (λ q. q.1.contents) saved ∙ kept, λ n. ap (λ q. q.1.file) saved ∙ file n)

IsKeyed-of :
    (w : Write) (r : Repository) (p : Option StoreError × Repository)
    → Outcome w r p
    → IsKeyed r.contents
    → IsKeyed p.1.contents
IsKeyed-of w r p (inl same) h = subst (λ s. IsKeyed s.contents) (sym same) h
IsKeyed-of w r p (inr (next, saved, keyed)) h =
    subst (λ q. IsKeyed q.1.contents) (sym saved) (replace_contents-IsKeyed w next r (keyed h) h)

IsSynced-of :
    (w : Write) (r : Repository) (p : Option StoreError × Repository)
    → Outcome w r p
    → w ≢ sync_failed
    → IsSynced r
    → IsSynced p.1
IsSynced-of w r p (inl same) n h = subst (λ s. IsSynced s) (sym same) h
IsSynced-of w r p (inr (next, saved, keyed)) n h =
    subst (λ q. IsSynced q.1) (sym saved) (replace_contents-IsSynced w next r n h)

-- A writing operation that returns an error leaves every collection in memory as it was, and, unless
-- only the sync of the directory failed, the file too.
pub run-failed :
    (c : Call) (op : Op) (r : Repository) {e : StoreError}
    → (run c op r).0 ≡ some e
    → ((run c op r).1.contents ≡ r.contents)
      × (c.write ≢ sync_failed → (run c op r).1.file ≡ r.file)
run-failed c op r h = failed_of c.write r (run c op r) (run-Outcome c op r) h

-- After any history of writing operations, failed ones included, no two runtimes, models, instances
-- or pipelines have one ID, if none did before.
pub run_all-IsKeyed :
    (l : List (Call × Op)) (r : Repository) → IsKeyed r.contents → IsKeyed (run_all l r).contents
unfolding run_all
run_all-IsKeyed [] r h = h
run_all-IsKeyed ((c, op) ∷ l) r h =
    run_all-IsKeyed l (run c op r).1 (IsKeyed-of c.write r (run c op r) (run-Outcome c op r) h)

-- If the file holds what is in memory, it does after any history of writing operations in which no
-- sync of the directory fails; other writes may fail.
pub run_all-IsSynced :
    (l : List (Call × Op)) (r : Repository)
    → All (λ (p : Call × Op). p.0.write ≢ sync_failed) l
    → IsSynced r
    → IsSynced (run_all l r)
unfolding run_all
run_all-IsSynced [] r n h = h
run_all-IsSynced ((c, op) ∷ l) r n h =
    run_all-IsSynced l (run c op r).1 n.1
      (IsSynced-of c.write r (run c op r) (run-Outcome c op r) n.0 h)
