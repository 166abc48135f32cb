-- ===== src/Authz/Memory.antt =====
-- An authorization store that is a list of tuples: it behaves as OpenFGA is documented to.
use criminal_networks_analys.Common.{refl, Bool, true, false, List, [], ◌∷◌, inr, arith}
use criminal_networks_analys.Authz.Tuples.{Tuple3, member, minus}
use criminal_networks_analys.Authz.Outbox.{Op, write, delete, Answer, done, bad_request, Server}
use criminal_networks_analys.Authz.Sets.{member-minus}
use criminal_networks_analys.Authz.Rebuilt.{IsStore}

abbrev change : Op → Tuple3 → List Tuple3 → Bool → Answer (List Tuple3)
change write t f true = bad_request "exists"
change write t f false = done (t ∷ f)
change delete t f true = done (minus f (t ∷ []))
change delete t f false = bad_request "missing"

abbrev pub server : Server (List Tuple3)
server = record {
  post = λ op t f. change op t f (member t f);
  exists = λ t f. inr (member t f);
  read_all = λ f. inr f;
}

pub server-IsStore : IsStore server
server-IsStore = record {
  reads = λ f. (f, refl);
  writes = λ t f absent. (t ∷ f, ground (arith, absent), λ u. refl);
  deletes = λ t f present.
      (minus f (t ∷ []), ground (arith, present), λ u. ground (arith, member-minus u f (t ∷ [])));
}
