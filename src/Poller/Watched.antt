-- ===== src/Poller/Watched.antt =====
-- What Poller (src/poller.cpp) asks ::poll about is what its slots were told.
use mathlib.Core.Path.{subst}
use build_your_own_redis.Prelude.{
  ℕ, suc, ◌≡◌, ◌≢◌, refl, sym, ap, ◌∙◌, ◌⊎◌, inl, inr, none, some, List, [], ◌∷◌, ◌++◌, ◌==◌,
  ==_iff, length, get_elem?, set, get_elem?-set_self, get_elem?-set_ne, get_elem?-length,
  get_elem?-last, get_elem?-old, Bool-cases,
}
use build_your_own_redis.Descriptors.{
  minus_one, find, assign, erase, find-assign_cases, find-erase_cases, find-assign_self,
  find-assign_ne, find-erase_ne,
}
use build_your_own_redis.Poller.{
  PollEventTypeList, Flags, PollFd, SocketEventHandler, Poller, flags_of,
}

-- An entry stands at its position in the vector, with its flags and a signal.
abbrev pub Stands : List PollFd → ℕ → SocketEventHandler → Type 0
Stands fds k h =
    (k ≢ minus_one)
    × ((s : ℕ) × (h.signal ≡ some s))
    × (get_elem? fds h.pos_in_fds ≡ some (record { fd = k; events = h.flags }))

-- Each entry of the map stands in the vector, and each descriptor of the vector that is asked about has
-- its entry.
pub record IsValid (p : Poller) : Type 0 where
  pub entry_watched :
      (k : ℕ) (h : SocketEventHandler) → find k p.handlers ≡ some h → Stands p.fds k h
  pub watched_entry :
      (i : ℕ) (e : PollFd)
      → get_elem? p.fds i ≡ some e
      → (e.fd ≡ minus_one)
        ⊎ ((h : SocketEventHandler) × (find e.fd p.handlers ≡ some h) × (h.pos_in_fds ≡ i))

abbrev pub no_poller : Poller
no_poller = record { fds = []; handlers = []; next_node = 0 }

pub no_poller-IsValid : IsValid no_poller
unfolding find
no_poller-IsValid = record { entry_watched = λ k h e. cc; watched_entry = λ i e h. cc }

-- Entries of two descriptors stand at different positions.
pos-ne :
    (p : Poller) (j k : ℕ) (g h : SocketEventHandler)
    → IsValid p
    → find j p.handlers ≡ some g
    → find k p.handlers ≡ some h
    → j ≢ k
    → g.pos_in_fds ≢ h.pos_in_fds
pos-ne p j k g h v eg eh ne q =
    let (a, b, c) = v.entry_watched j g eg in
    let (d, e, f) = v.entry_watched k h eh in
    let same_place = sym c ∙ ap (get_elem? p.fds) q ∙ f in ne (cc)

-- A descriptor that stands elsewhere in the vector is not the one of an entry.
fd-ne :
    (p : Poller) (k : ℕ) (h g : SocketEventHandler) (i j : ℕ)
    → find k p.handlers ≡ some h
    → h.pos_in_fds ≢ i
    → find j p.handlers ≡ some g
    → g.pos_in_fds ≡ i
    → k ≢ j
fd-ne p k h g i j e ne f at q =
    let same_entry = sym e ∙ ap (λ x. find x p.handlers) q ∙ f in ne (cc)

module _ (garbage : Flags) (fd signal : ℕ) (types : PollEventTypeList) (p : Poller) where
  abbrev new_fd : PollFd
  new_fd = record { fd = fd; events = flags_of garbage types }

  abbrev new_entry : SocketEventHandler
  new_entry = record {
    fd = fd;
    flags = flags_of garbage types;
    signal = some signal;
    pos_in_fds = length p.fds;
    node = p.next_node;
  }

  abbrev pub added_new : Poller
  added_new = record {
    fds = p.fds ++ new_fd ∷ [];
    handlers = assign fd new_entry p.handlers;
    next_node = suc p.next_node;
  }

  pub added_new-IsValid : fd ≢ minus_one → find fd p.handlers ≡ none → IsValid p → IsValid added_new
  added_new-IsValid real new v = record {
    entry_watched = λ k h e. elim (find-assign_cases fd k new_entry h p.handlers e) [
      | inl (same_fd, same_entry) ↦
          subst (λ x. Stands added_new.fds k x) same_entry
            (subst (λ j. Stands added_new.fds j new_entry) same_fd
              (real, (signal, refl), get_elem?-length p.fds [] new_fd))
      | inr (ne, old) ↦
          let (n, s, w) = v.entry_watched k h old in
          (n, s, get_elem?-old p.fds (new_fd ∷ []) _ h.pos_in_fds w)
    ];
    watched_entry = λ i e h. elim (get_elem?-last p.fds new_fd e i h) [
      | inl old ↦ elim (v.watched_entry i e old) [
        | inl off ↦ inl off
        | inr (x, f, at) ↦ inr (
          x,
          find-assign_ne fd e.fd new_entry p.handlers
                (λ q. cc (new, f, ap (λ j. find j p.handlers) q))
              ∙ f,
          at,
        )
      ]
      | inr (same_item, last) ↦
          subst
            (λ (y : PollFd).
              (y.fd ≡ minus_one)
              ⊎ ((x : SocketEventHandler) × (find y.fd added_new.handlers ≡ some x)
                  × (x.pos_in_fds ≡ i)))
            same_item (inr (new_entry, find-assign_self fd new_entry p.handlers, sym last))
    ];
  }

  module _ (h0 : SocketEventHandler) where
    abbrev changed_entry : SocketEventHandler
    changed_entry = record h0 { flags = flags_of garbage types; signal = some signal }

    abbrev pub added_old : Poller
    added_old = record p {
      fds = set p.fds h0.pos_in_fds new_fd;
      handlers = assign fd changed_entry p.handlers;
    }

    pub added_old-IsValid : find fd p.handlers ≡ some h0 → IsValid p → IsValid added_old
    added_old-IsValid held v = record {
      entry_watched = λ k h e. elim (find-assign_cases fd k changed_entry h p.handlers e) [
        | inl (same_fd, same_entry) ↦
            let (n, s, w) = v.entry_watched fd h0 held in
            subst (λ x. Stands added_old.fds k x) same_entry
              (subst (λ j. Stands added_old.fds j changed_entry) same_fd
                (n, (signal, refl), get_elem?-set_self p.fds h0.pos_in_fds new_fd _ w))
        | inr (ne, old) ↦
            let (n, s, w) = v.entry_watched k h old in
            (
              n,
              s,
              get_elem?-set_ne p.fds h0.pos_in_fds h.pos_in_fds new_fd
                    (pos-ne p fd k h0 h v held old ne)
                  ∙ w,
            )
      ];
      watched_entry = λ i e h. elim (Bool-cases (h0.pos_in_fds == i)) [
        | inl q ↦
            let (n, s, w) = v.entry_watched fd h0 held in
            let at = (==_iff h0.pos_in_fds i).0 q in
            let same_item : new_fd ≡ e = cc (
              get_elem?-set_self p.fds h0.pos_in_fds new_fd _ w,
              ap (get_elem? added_old.fds) at,
              h,
            ) in
            subst
              (λ (y : PollFd).
                (y.fd ≡ minus_one)
                ⊎ ((x : SocketEventHandler) × (find y.fd added_old.handlers ≡ some x)
                    × (x.pos_in_fds ≡ i)))
              same_item (inr (changed_entry, find-assign_self fd changed_entry p.handlers, at))
        | inr q ↦
            let elsewhere : h0.pos_in_fds ≢ i = λ at. cc ((==_iff h0.pos_in_fds i).1 at) in
            elim (v.watched_entry i e
              (sym (get_elem?-set_ne p.fds h0.pos_in_fds i new_fd elsewhere) ∙ h)) [
                | inl off ↦ inl off
                | inr (x, f, at) ↦ inr (
                  x,
                  find-assign_ne fd e.fd changed_entry p.handlers
                        (fd-ne p fd h0 x i e.fd held elsewhere f at)
                      ∙ f,
                  at,
                )
              ]
      ];
    }

module _ (fd : ℕ) (p : Poller) (h0 : SocketEventHandler) (events : Flags) where
  abbrev no_fd : PollFd
  no_fd = record { fd = minus_one; events = events }

  abbrev pub taken_off : Poller
  taken_off = record p { fds = set p.fds h0.pos_in_fds no_fd; handlers = erase fd p.handlers }

  pub taken_off-IsValid : find fd p.handlers ≡ some h0 → IsValid p → IsValid taken_off
  taken_off-IsValid held v = record {
    entry_watched = λ k h e.
        let (ne, old) = find-erase_cases fd k h p.handlers e in
        let (n, s, w) = v.entry_watched k h old in
        (
          n,
          s,
          get_elem?-set_ne p.fds h0.pos_in_fds h.pos_in_fds no_fd (pos-ne p fd k h0 h v held old ne)
              ∙ w,
        );
    watched_entry = λ i e h. elim (Bool-cases (h0.pos_in_fds == i)) [
      | inl q ↦
          let (n, s, w) = v.entry_watched fd h0 held in
          let same_item : no_fd ≡ e = cc (
            get_elem?-set_self p.fds h0.pos_in_fds no_fd _ w,
            ap (get_elem? taken_off.fds) ((==_iff h0.pos_in_fds i).0 q),
            h,
          ) in
          inl (ap (λ (y : PollFd). y.fd) (sym same_item))
      | inr q ↦
          let elsewhere : h0.pos_in_fds ≢ i = λ at. cc ((==_iff h0.pos_in_fds i).1 at) in
          elim (v.watched_entry i e
            (sym (get_elem?-set_ne p.fds h0.pos_in_fds i no_fd elsewhere) ∙ h)) [
              | inl off ↦ inl off
              | inr (x, f, at) ↦ inr (
                x,
                find-erase_ne fd e.fd p.handlers (fd-ne p fd h0 x i e.fd held elsewhere f at) ∙ f,
                at,
              )
            ]
    ];
  }
