-- ===== src/Poller/Refines.antt =====
-- The poller (src/poller.cpp) behind the calls of its two slots: a map from descriptors to what is to be
-- watched.
use build_your_own_redis.Prelude.{
  ℕ, ◌≡◌, ◌≢◌, refl, sym, ap, ◌∙◌, inl, inr, Option, none, some, List, [], ◌∷◌, arith, ◌==◌,
  if◌then◌else◌, All, Option-cases, Bool-cases, ==_iff,
}
use build_your_own_redis.Outcome.{ok}
use build_your_own_redis.Descriptors.{minus_one, find, assign, erase, find-assign, find-erase}
use build_your_own_redis.Poller.{
  PollEventTypeList, Flags, SocketEventHandler, Poller, flags_of, add_found, add, remove, Request,
  adds, removes, request, request_all,
}
use build_your_own_redis.Poller.Watched.{
  IsValid, no_poller, no_poller-IsValid, added_new, added_new-IsValid, added_old, added_old-IsValid,
  taken_off, taken_off-IsValid,
}
use build_your_own_redis.Poller.Asks.{Watch, watch_of, watched, IsValid-AsksFor}
use build_your_own_redis.Poller.Added.{
  Added, last_added, flags_added, if-flags_added, AsksAdded, AsksFor-AsksAdded,
}

-- What a call of a slot does to what is watched
unfoldable told : Request → Watch → Watch
told (adds garbage fd types signal) w k =
    if fd == k then some (flags_of garbage types, some signal) else w k
told (removes fd) w k = if fd == k then none else w k

unfoldable told_all : List Request → Watch → Watch
unfolding told
told_all [] w = w
told_all (r ∷ rs) w = told_all rs (told r w)

abbrev pub IsReal : Request → Type 0
IsReal (adds garbage fd types signal) = fd ≢ minus_one
IsReal (removes fd) = Unit

abbrev Follows : Request → Poller → Poller → Type 0
Follows r p q = (request r p ≡ ok q) × IsValid q × ((k : ℕ) → watched q k ≡ told r (watched p) k)

-- The view of a map behind an assignment or an erasure
watch-assign :
    (fd k : ℕ) (h : SocketEventHandler) (p : Poller)
    → watch_of (find k (assign fd h p.handlers))
      ≡ (if fd == k then some (h.flags, h.signal) else watched p k)
watch-assign fd k h p = rw (find-assign fd k h p.handlers) (ground arith)

watch-erase :
    (fd k : ℕ) (p : Poller)
    → watch_of (find k (erase fd p.handlers)) ≡ (if fd == k then none else watched p k)
watch-erase fd k p = rw (find-erase fd k p.handlers) (ground arith)

watch-absent :
    (fd k : ℕ) (p : Poller)
    → find fd p.handlers ≡ none
    → watched p k ≡ (if fd == k then none else watched p k)
watch-absent fd k p new = elim (Bool-cases (fd == k)) [
  | inl q ↦
      rw q (ap (λ j. watch_of (find j p.handlers)) (sym ((==_iff fd k).0 q)) ∙ ap watch_of new)
  | inr q ↦ rw q refl
]

request-Follows : (r : Request) (p : Poller) → IsReal r → IsValid p → (q : Poller) × Follows r p q
unfolding request add add_found remove told
request-Follows (adds garbage fd types signal) p real v = elim (Option-cases (find fd p.handlers)) [
  | inl new ↦ (
    added_new garbage fd signal types p,
    (
      rw (new, add_found) refl,
      added_new-IsValid garbage fd signal types p real new v,
      λ k. watch-assign fd k _ p,
    ),
  )
  | inr (h0, held) ↦
      let (n, s, w) = v.entry_watched fd h0 held in
      (
        added_old garbage fd signal types p h0,
        (
          rw (held, add_found, w) refl,
          added_old-IsValid garbage fd signal types p h0 held v,
          λ k. watch-assign fd k _ p,
        ),
      )
]
request-Follows (removes fd) p real v = elim (Option-cases (find fd p.handlers)) [
  | inl new ↦ (p, (rw (new, remove) refl, v, λ k. watch-absent fd k p new))
  | inr (h0, held) ↦
      let (n, s, w) = v.entry_watched fd h0 held in
      (
        taken_off fd p h0 h0.flags,
        (
          rw (held, remove, w) refl,
          taken_off-IsValid fd p h0 h0.flags held v,
          λ k. watch-erase fd k p,
        ),
      )
]

pub add-Follows :
    (garbage : Flags) (fd signal : ℕ) (types : PollEventTypeList) (p : Poller)
    → fd ≢ minus_one
    → IsValid p
    → (q : Poller) × ((add garbage fd types signal p ≡ ok q)
        × IsValid q
        × ((k : ℕ)
            → watched q k
              ≡ (if fd == k then some (flags_of garbage types, some signal) else watched p k)))
unfolding request told
add-Follows garbage fd signal types p real v =
    request-Follows (adds garbage fd types signal) p real v

pub remove-Follows :
    (fd : ℕ) (p : Poller)
    → IsValid p
    → (q : Poller) × ((remove fd p ≡ ok q)
        × IsValid q
        × ((k : ℕ) → watched q k ≡ (if fd == k then none else watched p k)))
unfolding request told
remove-Follows fd p v = request-Follows (removes fd) p tt v

told-ext : (r : Request) (w x : Watch) → ((k : ℕ) → w k ≡ x k) → (k : ℕ) → told r w k ≡ told r x k
unfolding told
told-ext (adds garbage fd types signal) w x h k = rw (h k) refl
told-ext (removes fd) w x h k = rw (h k) refl

told_all-ext :
    (rs : List Request) (w x : Watch)
    → ((k : ℕ) → w k ≡ x k)
    → (k : ℕ) → told_all rs w k ≡ told_all rs x k
unfolding told_all
told_all-ext [] w x h k = h k
told_all-ext (r ∷ rs) w x h k = told_all-ext rs (told r w) (told r x) (told-ext r w x h) k

request_all-Follows :
    (rs : List Request) (p : Poller)
    → All IsReal rs
    → IsValid p
    → (q : Poller) × ((request_all rs p ≡ ok q)
        × IsValid q
        × ((k : ℕ) → watched q k ≡ told_all rs (watched p) k))
unfolding request_all told_all
request_all-Follows [] p real v = (p, (refl, v, λ k. refl))
request_all-Follows (r ∷ rs) p real v =
    let (q, (runs, valid, follows)) = request-Follows r p real.0 v in
    let (t, (runs', valid', follows')) = request_all-Follows rs q real.1 valid in
    (
      t,
      (
        rw runs runs',
        valid',
        λ k. follows' k ∙ told_all-ext rs (watched q) (told r (watched p)) follows k,
      ),
    )

told-flags_added :
    (rs : List Request) (w : ℕ → Option Added) (x : Watch)
    → ((k : ℕ) → x k ≡ flags_added (w k))
    → (k : ℕ) → told_all rs x k ≡ flags_added (last_added rs w k)
unfolding told_all told last_added
told-flags_added [] w x h k = h k
told-flags_added (adds garbage fd types signal ∷ rs) w x h k =
    told-flags_added rs _ _
      (λ j. if-flags_added (fd == j) (some (garbage, types, signal)) (w j) (x j) (h j)) k
told-flags_added (removes fd ∷ rs) w x h k =
    told-flags_added rs _ _ (λ j. if-flags_added (fd == j) none (w j) (x j) (h j)) k

-- However the two slots of a poller are called, with real descriptors, the calls never read or write out
-- of range, and afterwards ::poll is asked about a descriptor exactly where it was added and not removed
-- since, once: to read or to write where the last call that added it has this type of event or the
-- uninitialised variable of that call held its bit, and for the other bits that the variable held.
pub request_all-AsksFor :
    (rs : List Request)
    → All IsReal rs
    → (q : Poller) × ((request_all rs no_poller ≡ ok q)
        × AsksAdded q.fds (last_added rs (λ k. none)))
unfolding find
request_all-AsksFor rs real =
    let (q, (runs, valid, follows)) = request_all-Follows rs no_poller real no_poller-IsValid in
    (
      q,
      (
        runs,
        AsksFor-AsksAdded q.fds (watched q) _
            (λ k. follows k ∙ told-flags_added rs (λ j. none) (λ j. none) (λ j. refl) k)
            (IsValid-AsksFor q valid),
      ),
    )
