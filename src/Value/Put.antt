-- ===== src/Value/Put.antt =====
-- Reading a dictionary behind an assignment.
use doorfastforha.Prelude.{
  ◌≡◌, refl, String, ◌||◌, if◌then◌else◌, List, [], ◌∷◌, ap, str_eq, eq_iff, arith,
}
use doorfastforha.Value.{Value, Fields, end, field, get, has, put, to_list}
use doorfastforha.Value.Equal.{from_list}

pub get-put :
    (k j : String) (v : Value) (d : Fields)
    → get (put k v d) j ≡ (if str_eq k j then v else get d j)
unfolding put
get-put k j v end = ground arith
get-put k j v (field i w d) = ground (arith, eq_iff k j, eq_iff i k, eq_iff i j, get-put k j v d)

pub has-put : (k j : String) (v : Value) (d : Fields) → has (put k v d) j ≡ (str_eq k j || has d j)
unfolding put
has-put k j v end = ground arith
has-put k j v (field i w d) = ground (arith, eq_iff k j, eq_iff i k, eq_iff i j, has-put k j v d)

pub to_list-from_list : (vs : List Value) → to_list (from_list vs) ≡ vs
to_list-from_list [] = refl
to_list-from_list (v ∷ vs) = ap (◌∷◌ v) (to_list-from_list vs)
