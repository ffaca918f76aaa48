-- ===== src/Url/Laws.antt =====
-- The laws of `url.Values`, and what is assumed of its printing and parsing.
use bindings.Common.{eq_iff, ◌∷◌, arith, [], ◌==◌, if◌then◌else◌, ◌≡◌, String}
use bindings.Url.{Values, del, values_of}

pub values_of-del :
    (q : Values) (k j : String) → values_of (del q k) j ≡ (if k == j then [] else values_of q j)
unfolding values_of del
values_of-del [] k j = ground arith
values_of-del ((i, vs) ∷ q) k j =
    ground (arith, values_of-del q k j, eq_iff i k, eq_iff i j, eq_iff k j)
