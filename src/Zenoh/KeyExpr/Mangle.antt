-- ===== src/Zenoh/KeyExpr/Mangle.antt =====
-- Mangling of names for liveliness keys.
use ros2_client.Base.{[], ◌∷◌, ◌≡◌, ◌≢◌, refl, arith, ==_iff}
use ros2_client.Base.Text.{Text, codes, Lacks, replace}
use ros2_client.Zenoh.KeyExpr.{mangle, demangle}

replace-Lacks : (s : Text) → Lacks b'/' (replace b'/' b'%' s)
replace-Lacks [] = tt
replace-Lacks (c ∷ s) = ground (arith, ==_iff c b'/', replace-Lacks s)

replace_back : (s : Text) → Lacks b'%' s → replace b'%' b'/' (replace b'/' b'%' s) ≡ s
replace_back [] h = refl
replace_back (c ∷ s) (ne, h) = ground (arith, ==_iff c b'/', ==_iff c b'%', replace_back s h)

-- A mangled name is one chunk of a key, and is not empty.
pub mangle-Lacks : (name : Text) → Lacks b'/' (mangle name) × (mangle name ≢ [])
unfolding mangle
mangle-Lacks [] = (omega arith, λ e. cc)
mangle-Lacks (c ∷ s) = (replace-Lacks (c ∷ s), λ e. cc)

-- The name that comes back: the empty name and the root are one.
abbrev pub root_if_empty : Text → Text
root_if_empty [] = codes "/"
root_if_empty (c ∷ s) = c ∷ s

-- Demangling undoes mangling for a name that holds no percent sign, up to the empty name, which comes
-- back as the root.
pub demangle-mangle : (name : Text) → Lacks b'%' name → demangle (mangle name) ≡ root_if_empty name
unfolding mangle demangle
demangle-mangle [] h = refl
demangle-mangle (c ∷ s) h = replace_back (c ∷ s) h
