-- ===== src/Identity/Membership/Bounds.antt =====
-- The revisions that membership rows name, and those handed out.
use criminal_networks_analys.Common.{ℕ, suc, List, [], ◌∷◌, ◌++◌, map, arith}
use criminal_networks_analys.Identity.Store.{IdentityMembership}
use criminal_networks_analys.Identity.Moves.{close_moved, reopened, moved_table}
use criminal_networks_analys.Identity.Membership.Spec.{WithinRow, AreWithin}

pub AreWithin-append :
    (n : ℕ) (ms ns : List IdentityMembership)
    → AreWithin n ms
    → AreWithin n ns
    → AreWithin n (ms ++ ns)
AreWithin-append n [] ns h k = k
AreWithin-append n (m ∷ ms) ns h k = (h.0, AreWithin-append n ms ns h.1 k)

AreWithin-reopened :
    (ids : ℕ → ℕ) (target n d : ℕ) (ms : List IdentityMembership)
    → AreWithin (suc n) (reopened ids d target n ms)
unfolding reopened
AreWithin-reopened ids target n d [] = tt
AreWithin-reopened ids target n d (m ∷ ms) =
    ((omega arith, tt), AreWithin-reopened ids target n (suc d) ms)

pub AreWithin-suc : (n : ℕ) (ms : List IdentityMembership) → AreWithin n ms → AreWithin (suc n) ms
AreWithin-suc n [] h = tt
AreWithin-suc n (m ∷ ms) h = (ground arith, AreWithin-suc n ms h.1)

WithinRow-close :
    (mentions : List ℕ) (target n : ℕ) (m : IdentityMembership)
    → WithinRow n m
    → WithinRow (suc n) (close_moved mentions target n m)
WithinRow-close mentions target n m h = ground arith

AreWithin-close :
    (mentions : List ℕ) (target n : ℕ) (ms : List IdentityMembership)
    → AreWithin n ms
    → AreWithin (suc n) (map (close_moved mentions target n) ms)
AreWithin-close mentions target n [] h = tt
AreWithin-close mentions target n (m ∷ ms) h =
    (WithinRow-close mentions target n m h.0, AreWithin-close mentions target n ms h.1)

pub AreWithin-moved_table :
    (ids : ℕ → ℕ) (d : ℕ) (mentions : List ℕ) (target n : ℕ) (ms : List IdentityMembership)
    → AreWithin n ms
    → AreWithin (suc n) (moved_table ids d mentions target n ms)
unfolding moved_table
AreWithin-moved_table ids d mentions target n ms h =
    AreWithin-append (suc n) (map (close_moved mentions target n) ms) _
      (AreWithin-close mentions target n ms h) (AreWithin-reopened ids target n d _)
