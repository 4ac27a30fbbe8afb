-- ===== src/Stock/Alerts/Repeats.antt =====
-- What a scan has notified, and that it does not repeat itself.
use estoque_saas.Base.{
  ℕ, ◌+◌, ◌≡◌, inl, inr, true, false, List, [], ◌∷◌, arith, length, All, if◌then◌else◌, Bool-cases,
}
use estoque_saas.Stock.Alerts.{
  Notification, NotificationType, expiry, low_stock, already_notified_recently, notify_all,
}

-- No notification, newest first, has an older one of the same kind and reference within twenty hours.
abbrev pub IsSpaced : List Notification → Type 0
IsSpaced [] = Unit
IsSpaced (n ∷ ns) =
    (already_notified_recently n.kind n.reference n.created_at ns ≡ false) × IsSpaced ns

-- Each of these was notified in the last twenty hours.
abbrev pub AllKnown : NotificationType → ℕ → List ℕ → List Notification → Type 0
AllKnown kind now rs ns = All (λ r. already_notified_recently kind r now ns ≡ true) rs

abbrev note : NotificationType → ℕ → ℕ → Notification
note kind now r = record { kind = kind; reference = r; created_at = now }

known-cons :
    (kind : NotificationType) (r now : ℕ) (n : Notification) (ns : List Notification)
    → already_notified_recently kind r now ns ≡ true
    → already_notified_recently kind r now (n ∷ ns) ≡ true
unfolding already_notified_recently
known-cons kind r now n ns h = ground arith

known_note :
    (kind : NotificationType) (r now : ℕ) (ns : List Notification)
    → already_notified_recently kind r now (note kind now r ∷ ns) ≡ true
unfolding already_notified_recently
known_note expiry r now ns = ground arith
known_note low_stock r now ns = ground arith

abbrev with_note : NotificationType → ℕ → ℕ → List Notification → List Notification
with_note kind now r ns =
    if already_notified_recently kind r now ns then ns else note kind now r ∷ ns

known-with_note :
    (kind : NotificationType) (r now : ℕ) (ns : List Notification)
    → already_notified_recently kind r now (with_note kind now r ns) ≡ true
known-with_note kind r now ns = elim (Bool-cases (already_notified_recently kind r now ns)) [
  | inl e ↦ rw e e
  | inr e ↦ rw e (known_note kind r now ns)
]

known-notify_all :
    (kind other : NotificationType) (r now : ℕ) (rs : List ℕ) (ns : List Notification)
    → already_notified_recently kind r now ns ≡ true
    → already_notified_recently kind r now (notify_all other now rs ns).1 ≡ true
unfolding notify_all
known-notify_all kind other r now [] ns h = h
known-notify_all kind other r now (x ∷ xs) ns h =
    elim (Bool-cases (already_notified_recently other x now ns)) [
      | inl e ↦ rw e (known-notify_all kind other r now xs ns h)
      | inr e ↦ rw e (
          known-notify_all kind other r now xs (note other now x ∷ ns)
            (known-cons kind r now _ ns h))
    ]

pub notify_all-AllKnown :
    (kind : NotificationType) (now : ℕ) (rs : List ℕ) (ns : List Notification)
    → AllKnown kind now rs (notify_all kind now rs ns).1
unfolding notify_all
notify_all-AllKnown kind now [] ns = tt
notify_all-AllKnown kind now (r ∷ rs) ns = (
  known-notify_all kind kind r now rs (with_note kind now r ns) (known-with_note kind r now ns),
  notify_all-AllKnown kind now rs (with_note kind now r ns),
)

pub AllKnown-notify_all :
    (kind other : NotificationType) (now : ℕ) (rs xs : List ℕ) (ns : List Notification)
    → AllKnown kind now rs ns
    → AllKnown kind now rs (notify_all other now xs ns).1
AllKnown-notify_all kind other now [] xs ns h = tt
AllKnown-notify_all kind other now (r ∷ rs) xs ns h =
    (known-notify_all kind other r now xs ns h.0, AllKnown-notify_all kind other now rs xs ns h.1)

pub notify_all-IsSpaced :
    (kind : NotificationType) (now : ℕ) (rs : List ℕ) (ns : List Notification)
    → IsSpaced ns
    → IsSpaced (notify_all kind now rs ns).1
      × (length (notify_all kind now rs ns).1 ≡ (notify_all kind now rs ns).0 + length ns)
unfolding notify_all
notify_all-IsSpaced kind now [] ns h = (h, omega arith)
notify_all-IsSpaced kind now (r ∷ rs) ns h =
    elim (Bool-cases (already_notified_recently kind r now ns)) [
      | inl e ↦ rw e (notify_all-IsSpaced kind now rs ns h)
      | inr e ↦
          let rest = notify_all-IsSpaced kind now rs (note kind now r ∷ ns) (e, h) in
          rw e (rest.0, omega (arith, rest.1))
    ]
