-- ===== src/Startup/Picks.antt =====
-- Which numbers of a listing of /proc/self/fd have to be closed.
use ioprocess.Base.{
  ℕ, Bytes, bytes_eq, bytes_eq_iff, true, false, Option, none, some, List, [], ◌∷◌, codes, ◌==◌,
  ==_iff, ◌||◌, ◌≡◌, ◌≢◌, ◌⊎◌, inl, inr, refl, arith, Bool-cases, if◌then◌else◌, In, NotIn,
}
use ioprocess.Sys.{Os}
use ioprocess.Startup.Descriptors.{contains, unrelated}

module _ (scan_fd : Bytes → Option ℕ) (whitelist : List ℕ) (dfd : ℕ) where
  -- A name that is no number, or is that of a descriptor to keep.
  abbrev pub Spared : Bytes → Type 0
  Spared name =
      (name ≡ codes ".")
      ⊎ ((name ≡ codes "..")
          ⊎ ((scan_fd name ≡ none)
              ⊎ ((fd : ℕ) × (scan_fd name ≡ some fd) × ((fd ≡ dfd) ⊎ In fd whitelist))))

  abbrev pub Unwanted : Bytes → ℕ → Type 0
  Unwanted name fd =
      (name ≢ codes ".")
      × (name ≢ codes "..")
      × (scan_fd name ≡ some fd)
      × (fd ≢ dfd)
      × NotIn fd whitelist

  -- The numbers to close for some names, in their order.
  pub data Picks : List Bytes → List ℕ → Type 0 where
    no_name : Picks [] []
    spared :
        {name : Bytes} {names : List Bytes} {fds : List ℕ}
        → Spared name
        → Picks names fds
        → Picks (name ∷ names) fds
    picked :
        {name : Bytes} {fd : ℕ} {names : List Bytes} {fds : List ℕ}
        → Unwanted name fd
        → Picks names fds
        → Picks (name ∷ names) (fd ∷ fds)

contains-In : (ws : List ℕ) (fd : ℕ) → contains ws fd ≡ true → In fd ws
unfolding contains
contains-In [] fd e = cc
contains-In (w ∷ ws) fd e = elim (Bool-cases (fd == w)) [
  | inl q ↦ inl ((==_iff fd w).0 q)
  | inr q ↦ inr (contains-In ws fd (ground arith))
]

contains-NotIn : (ws : List ℕ) (fd : ℕ) → contains ws fd ≡ false → NotIn fd ws
unfolding contains
contains-NotIn [] fd e = tt
contains-NotIn (w ∷ ws) fd e = (ground arith, contains-NotIn ws fd (ground arith))

bytes_eq-apart : (a b : Bytes) → bytes_eq a b ≡ false → a ≢ b
bytes_eq-apart a b e p = let same = (bytes_eq_iff a b).1 p in cc

module _ (os : Os) (scan_fd : Bytes → Option ℕ) (whitelist : List ℕ) (dfd : ℕ) (name : Bytes) where
  abbrev pub Choice : Option ℕ → Type 0
  Choice none = Spared scan_fd whitelist dfd name
  Choice (some fd) = Unwanted scan_fd whitelist dfd name fd

  scanned :
      (o : Option ℕ)
      → scan_fd name ≡ o
      → name ≢ codes "."
      → name ≢ codes ".."
      → Choice (elim o [
        | none ↦ none
        | some fd ↦ if fd == dfd || contains whitelist fd then none else some fd
      ])
  scanned none e a b = inr (inr (inl e))
  scanned (some fd) e a b = elim (Bool-cases (fd == dfd)) [
    | inl q ↦ rw q (inr (inr (inr (fd, e, inl ((==_iff fd dfd).0 q)))))
    | inr q ↦ elim (Bool-cases (contains whitelist fd)) [
      | inl c ↦ rw (q, c) (inr (inr (inr (fd, e, inr (contains-In whitelist fd c)))))
      | inr c ↦
          let other : fd ≢ dfd = ground arith in
          rw (q, c) (a, b, e, other, contains-NotIn whitelist fd c)
    ]
  ]

  pub unrelated-Choice : Choice (unrelated os scan_fd whitelist dfd name)
  unfolding unrelated
  unrelated-Choice = elim (Bool-cases (bytes_eq name (codes "."))) [
    | inl q ↦ rw q (inl ((bytes_eq_iff name (codes ".")).0 q))
    | inr q ↦ elim (Bool-cases (bytes_eq name (codes ".."))) [
      | inl r ↦ rw (q, r) (inr (inl ((bytes_eq_iff name (codes "..")).0 r)))
      | inr r ↦
          rw (q, r)
            (scanned (scan_fd name) refl (bytes_eq-apart name (codes ".") q)
              (bytes_eq-apart name (codes "..") r))
    ]
  ]
