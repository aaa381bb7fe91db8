-- ===== src/Sched/Soonest.antt =====
-- The time that `check_test_start_timer` sets its timer by.
use myreflection.Common.{
  ◌≡◌, refl, sym, subst, ap, ◌∙◌, ◌⊎◌, inl, inr, false, Option, none, some, List, [], ◌∷◌, arith,
  Bool-cases, Option-cases,
}
use myreflection.Types.{Time}
use myreflection.Sched.{
  TestQueue, immediate, fast, normal, slow, user, Scheduler, time_lt, waiting, all_queues,
  head_time, soonest, sooner,
}

abbrev pub head_of : Scheduler → TestQueue → Option Time
head_of s q = head_time s.tests (waiting s q)

-- No time is before this one.
abbrev NotBefore : Option Time → Time → Type 0
NotBefore none t = Unit
NotBefore (some u) t = time_lt u t ≡ false

abbrev NoneBefore : Scheduler → List TestQueue → Time → Type 0
NoneBefore s [] t = Unit
NoneBefore s (q ∷ qs) t = NotBefore (head_of s q) t × NoneBefore s qs t

-- The soonest of the heads and of an earlier best, if there is one.
abbrev Least : Scheduler → List TestQueue → Option Time → Option Time → Type 0
Least s qs best o =
    (t : Time) × (o ≡ some t)
    × NotBefore best t
    × NoneBefore s qs t
    × ((best ≡ some t) ⊎ ((q : TestQueue) × (head_of s q ≡ some t)))

-- The better of two times is one of them, and neither is before it.
sooner_lem :
    (b : Time) (h : Option Time)
    → (t : Time) × (sooner (some b) h ≡ some t)
      × (time_lt b t ≡ false)
      × NotBefore h t
      × ((b ≡ t) ⊎ (h ≡ some t))
sooner_lem b none = (b, refl, ground arith, tt, inl refl)
sooner_lem b (some u) = elim (Bool-cases (time_lt u b)) [
  | inl e ↦ (u, rw e refl, ground arith, ground arith, inr refl)
  | inr e ↦ (b, rw e refl, ground arith, e, inl refl)
]

time_lt_trans : (a b c : Time) → time_lt a b ≡ false → time_lt b c ≡ false → time_lt a c ≡ false
time_lt_trans a b c h k = ground arith

NotBefore-trans :
    (o : Option Time) (b c : Time) → NotBefore o b → time_lt b c ≡ false → NotBefore o c
NotBefore-trans none b c h k = tt
NotBefore-trans (some a) b c h k = time_lt_trans a b c h k

soonest-Least :
    (s : Scheduler) (qs : List TestQueue) (b : Time) → Least s qs (some b) (soonest s qs (some b))
unfolding soonest
soonest-Least s [] b = (b, refl, ground arith, tt, inl refl)
soonest-Least s (q ∷ qs) b =
    let (t, e, first, head, from) = sooner_lem b (head_of s q) in
    let (least, found, le, others, at) = soonest-Least s qs t in
    (
      least,
      ap (soonest s qs) e ∙ found,
      time_lt_trans b t least first le,
      (NotBefore-trans (head_of s q) t least head le, others),
      elim at [
        | inr other ↦ inr other
        | inl same ↦ elim from [
          | inl kept ↦ inl (ap some kept ∙ same)
          | inr taken ↦ inr (q, taken ∙ same)
        ]
      ],
    )

-- One of these queues has a first test.
abbrev AnyHead : Scheduler → List TestQueue → Type 0
AnyHead s [] = ⊥
AnyHead s (q ∷ qs) = ((u : Time) × (head_of s q ≡ some u)) ⊎ AnyHead s qs

soonest-first :
    (s : Scheduler) (qs : List TestQueue) → AnyHead s qs → Least s qs none (soonest s qs none)
unfolding soonest
soonest-first s [] some_head = absurd some_head
soonest-first s (q ∷ qs) some_head = elim (Option-cases (head_of s q)) [
  | inr (v, e) ↦
      let (least, found, le, others, at) = soonest-Least s qs v in
      rw e (
        least,
        found,
        tt,
        (le, others),
        elim at [ inl same ↦ inr (q, e ∙ same) | inr other ↦ inr other ],
      )
  | inl e ↦ elim some_head [
    | inl (u, here) ↦ absurd (ground (arith, sym e ∙ here))
    | inr there ↦
        let (least, found, le, others, at) = soonest-first s qs there in
        rw e (least, found, tt, (tt, others), at)
  ]
]

any_queue : (s : Scheduler) (q : TestQueue) (u : Time) → head_of s q ≡ some u → AnyHead s all_queues
any_queue s immediate u e = inl (u, e)
any_queue s fast u e = inr (inl (u, e))
any_queue s normal u e = inr (inr (inl (u, e)))
any_queue s slow u e = inr (inr (inr (inl (u, e))))
any_queue s user u e = inr (inr (inr (inr (inl (u, e)))))

each_queue :
    (s : Scheduler) (q : TestQueue) (t : Time)
    → NoneBefore s all_queues t
    → NotBefore (head_of s q) t
each_queue s immediate t n = n.0
each_queue s fast t n = n.1.0
each_queue s normal t n = n.1.1.0
each_queue s slow t n = n.1.1.1.0
each_queue s user t n = n.1.1.1.1.0

-- Where a queue has a first test, the loop of check_test_start_timer finds the time of the first test
-- of some queue, and the time of this one is not before it.
pub soonest-head :
    (s : Scheduler) (q : TestQueue) (u : Time)
    → head_of s q ≡ some u
    → (t : Time) × (soonest s all_queues none ≡ some t)
      × (time_lt u t ≡ false)
      × ((p : TestQueue) × (head_of s p ≡ some t))
soonest-head s q u e =
    let (t, found, le, others, at) = soonest-first s all_queues (any_queue s q u e) in
    (
      t,
      found,
      subst (λ o. NotBefore o t) e (each_queue s q t others),
      elim at [ inl no_best ↦ absurd (ground (arith, no_best)) | inr head ↦ head ],
    )
