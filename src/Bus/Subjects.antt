-- ===== src/Bus/Subjects.antt =====
-- setOf of internal/bus/bus.go on the subjects of a set.
use placitum_keeper.Base.{◌≡◌, ◌≢◌, refl, ap, Str, List, [], ◌∷◌, ◌++◌, All, codes, arith}
use placitum_keeper.Bus.{prefix, split, third, set_of}

abbrev pub NoDot : Str → Type 0
NoDot s = All (λ c. c ≢ 46) s

split-append : (name rest : Str) → NoDot name → split (name ++ (46 ∷ rest)) ≡ name ∷ split rest
unfolding split
split-append [] rest plain = refl
split-append (c ∷ name) rest plain = ground (arith, split-append name rest plain.1)

split_plain : (name : Str) → NoDot name → split name ≡ name ∷ []
unfolding split
split_plain [] plain = refl
split_plain (c ∷ name) plain = ground (arith, split_plain name plain.1)

-- The parts after the prefix.
abbrev third_of : List Str → Str
third_of ps = third (codes "waf" ∷ codes "sets" ∷ ps)

-- The set of a subject that the program publishes or subscribes to is the one that is named in it:
-- `waf.sets.<name>` and `waf.sets.<name>.<anything>`, for a name without a dot.
pub set_of-prefix :
    (name rest : Str)
    → NoDot name
    → (set_of (prefix ++ name) ≡ name) × (set_of (prefix ++ (name ++ (46 ∷ rest))) ≡ name)
unfolding set_of split
set_of-prefix name rest plain =
    (ap third_of (split_plain name plain), ap third_of (split-append name rest plain))
