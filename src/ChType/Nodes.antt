-- ===== src/ChType/Nodes.antt =====
-- The node tests of the engine, by the name of the node.
use chgen.Base.{◌≡◌, refl, String, true, false, none, some, arith, fold_eq}
use chgen.ChType.{ChType, ch_type, nil, cons, name, params, wrap, unwrap_as}

pub unwrap_as-none : (w : String) (t : ChType) → fold_eq (name t) w ≡ false → unwrap_as w t ≡ none
unfolding unwrap_as
unwrap_as-none w (ch_type n nil ls ns) h = refl
unwrap_as-none w (ch_type n (cons t nil) ls ns) h = rw h
unwrap_as-none w (ch_type n (cons t (cons u us)) ls ns) h = refl

pub unwrap_as-wrap :
    (w n : String) (t : ChType) → fold_eq n w ≡ true → unwrap_as w (wrap n t) ≡ some t
unfolding unwrap_as
unwrap_as-wrap w n t h = rw h

-- A node that passes the test has the name and the one parameter.
pub unwrap_as-eq-some :
    (w : String) (t p : ChType)
    → unwrap_as w t ≡ some p
    → (fold_eq (name t) w ≡ true) × (params t ≡ cons p nil)
unfolding unwrap_as
unwrap_as-eq-some w (ch_type n nil ls ns) p h = cc
unwrap_as-eq-some w (ch_type n (cons t nil) ls ns) p h = ground arith
unwrap_as-eq-some w (ch_type n (cons t (cons u us)) ls ns) p h = cc
