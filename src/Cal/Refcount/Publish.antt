-- ===== src/Cal/Refcount/Publish.antt =====
-- When the server publishes a segment with reference counts, src/cal.c: the search for a page in
-- `CalSegRcuTryPublish`.
use xcplite.Prelude.{
  ℕ, zero, suc, ◌+◌, ◌-◌, ◌≤◌, ◌<◌, ◌≡◌, ◌≢◌, ◌⊎◌, refl, sym, ◌∙◌, ap, subst, Bool, true, ◌==◌, ltb,
  if◌then◌else◌, if_cases, arith, Option, none, some,
}
use xcplite.Cal.{xcp_calpage_working_page, copy_within}
use xcplite.Cal.Refcount.{
  pin, RefSeg, rcu_page, next_page, find_target, publish_in, refcount_lock, refcount_try_publish,
}
use xcplite.Cal.Refcount.Inv.{pages_apart}

-- a target is a candidate: not the published page and not pinned
abbrev Candidate : ℕ → ℕ → (ℕ → ℕ) → ℕ → Type 0
Candidate pages published refs t = (1 ≤ t) × (t < pages) × (t ≢ published) × (refs t ≡ 0)

-- The search ends at a candidate, or there is none within its rounds.
abbrev Finds : ℕ → ℕ → (ℕ → ℕ) → Option ℕ → Type 0
Finds pages published refs none = Unit
Finds pages published refs (some t) = Candidate pages published refs t

find_target-Finds :
    (pages n published idx : ℕ) (refs : ℕ → ℕ)
    → 2 ≤ pages
    → Finds pages published refs (find_target pages n published idx refs)
unfolding find_target
find_target-Finds pages zero published idx refs h = tt
find_target-Finds pages (suc n) published idx refs h =
    let next = next_page pages idx in
    let later = find_target-Finds pages n published next refs h in
    if_cases (Finds pages published refs) (next == published) (λ e. later)
      (λ e.
        if_cases (Finds pages published refs) (refs next == 0)
          (λ k. (ground arith, ground (arith, h), ground (arith, e), ground (arith, k)))
          (λ k. later))

-- the rounds from the candidate `idx` to `p`
abbrev rounds : ℕ → ℕ → ℕ → ℕ
rounds pages idx p = if ltb idx p then p - idx else p + (pages - 1) - idx

abbrev Found : Option ℕ → Type 0
Found none = ⊥
Found (some t) = Unit

find_target-Found :
    (pages n published idx p : ℕ) (refs : ℕ → ℕ)
    → Candidate pages published refs p
    → idx < pages
    → rounds pages idx p ≤ n
    → 1 ≤ rounds pages idx p
    → Found (find_target pages n published idx refs)
unfolding find_target
find_target-Found pages zero published idx p refs c lt le pos = absurd (omega (arith, le, pos))
find_target-Found pages (suc n) published idx p refs c lt le pos =
    let next = next_page pages idx in
    let later : p ≢ next → Found (find_target pages n published next refs) = λ ne.
      find_target-Found pages n published next p refs c (ground (arith, c.0, c.1, lt))
        (ground (arith, c.0, c.1, lt, le, pos, ne)) (ground (arith, c.0, c.1, lt, ne)) in
    if_cases Found (next == published) (λ e. later (λ f. c.2 (f ∙ ground (arith, e))))
      (λ e.
        if_cases Found (refs next == 0) (λ k. tt)
          (λ k. later (λ f. absurd (ground (arith, k, ap refs f, c.3)))))

-- What a publication and a lock behind it leave, by the outcome of the search.
abbrev Publishes : ℕ → RefSeg → Bool × RefSeg → Type 0
Publishes pages c (done, c') =
    let (page, c'') = refcount_lock pages c' in
    (done ≡ true)
    × (c'.published_page ≢ c.published_page)
    × (c.page_refs c'.published_page ≡ 0)
    × ((k : ℕ)
        → k < c.size
        → (c''.b (page + k) ≡ c.b (c.xcp_page + k))
          × (c''.b (c''.xcp_page + k) ≡ c.b (c.xcp_page + k)))

lock-working :
    (pages : ℕ) (c : RefSeg)
    → c.ecu_access ≡ xcp_calpage_working_page
    → refcount_lock pages c ≡ (rcu_page c c.published_page, pin c.published_page c)
unfolding refcount_lock
lock-working pages c working = ground (arith, working)

-- the page that is filled, and the server's page
copied :
    (c : RefSeg) (t k : ℕ)
    → c.xcp_page ≡ rcu_page c 0
    → 1 ≤ t
    → k < c.size
    → (copy_within (rcu_page c t) c.xcp_page c.size c.b (rcu_page c t + k) ≡ c.b (c.xcp_page + k))
      × (copy_within (rcu_page c t) c.xcp_page c.size c.b (c.xcp_page + k) ≡ c.b (c.xcp_page + k))
unfolding copy_within
copied c t k xcp pos h =
    let apart = pages_apart c 0 t k (λ e. absurd (omega (arith, pos, e))) h in
    (
      ground (arith, h),
      ground (
        arith,
        subst (λ x. (x + k < rcu_page c t) ⊎ (rcu_page c t + c.size ≤ x + k)) (sym xcp) apart,
      ),
    )

publish_in-Publishes :
    (pages : ℕ) (c : RefSeg) (o : Option ℕ)
    → c.xcp_page ≡ rcu_page c 0
    → c.ecu_access ≡ xcp_calpage_working_page
    → Found o
    → Finds pages c.published_page c.page_refs o
    → Publishes pages c (publish_in pages o c)
unfolding publish_in
publish_in-Publishes pages c none xcp working found v = absurd found
publish_in-Publishes pages c (some t) xcp working found v =
    rw (lock-working pages (publish_in pages (some t) c).1 working)
      (refl, v.2, v.3, λ k h. copied c t k xcp v.0 h)

-- CalSegRcuTryPublish succeeds whenever a page but the server's and the published one is not pinned,
-- whatever locks the threads hold on the others. It publishes such a page, and the next lock of the
-- working page gets the bytes that the server's page had, which the server's page still holds.
pub refcount_try_publish-refcount_lock :
    (pages : ℕ) (c : RefSeg) (p : ℕ)
    → c.xcp_page ≡ rcu_page c 0
    → c.ecu_access ≡ xcp_calpage_working_page
    → 1 ≤ c.published_page
    → c.published_page < pages
    → 1 ≤ p
    → p < pages
    → p ≢ c.published_page
    → c.page_refs p ≡ 0
    → let (done, c') = refcount_try_publish pages c in
      let (page, c'') = refcount_lock pages c' in
      (done ≡ true)
      × (c'.published_page ≢ c.published_page)
      × (c.page_refs c'.published_page ≡ 0)
      × ((k : ℕ)
          → k < c.size
          → (c''.b (page + k) ≡ c.b (c.xcp_page + k))
            × (c''.b (c''.xcp_page + k) ≡ c.b (c.xcp_page + k)))
unfolding refcount_try_publish
refcount_try_publish-refcount_lock pages c p xcp working pub_pos pub_lt pos lt ne unpinned =
    publish_in-Publishes pages c
      (find_target pages (pages - 1) c.published_page c.published_page c.page_refs) xcp working
      (find_target-Found pages (pages - 1) c.published_page c.published_page p c.page_refs
        (pos, lt, ne, unpinned) pub_lt (ground (arith, pos, lt, ne, pub_pos, pub_lt))
        (ground (arith, pos, lt, ne, pub_pos, pub_lt)))
      (find_target-Finds pages (pages - 1) c.published_page c.published_page c.page_refs
        (omega (arith, pub_pos, pub_lt)))
