-- ===== src/Task/Events/Holds.antt =====
-- Which positions `on_recv` holds in the cache.
use libms.Base.{ℕ, ◌≡◌, refl, ap, ◌∙◌, List, [], ◌∷◌, ◌++◌, map}
use libms.Task.{Reader, reader_pos}
use libms.Task.Events.{unset, fill_hold_pos, hold_pos}

fill_hold_pos-last :
    (v : ℕ) (zeros : List ℕ) (readers : List Reader) (r : Reader)
    → fill_hold_pos (v ∷ zeros) (readers ++ (r ∷ [])) ≡ reader_pos r ∷ zeros
unfolding fill_hold_pos
fill_hold_pos-last v zeros [] r = refl
fill_hold_pos-last v zeros (s ∷ readers) r = fill_hold_pos-last (reader_pos s) zeros readers r

zeros-last :
    (readers : List Reader) (r : Reader) → map unset (readers ++ (r ∷ [])) ≡ 0 ∷ map unset readers
zeros-last [] r = refl
zeros-last (s ∷ readers) r = ap (λ zs. 0 ∷ zs) (zeros-last readers r)

-- The positions that `on_recv` holds are that of the last reader and a 0 for each other one.
pub hold_pos-last :
    (readers : List Reader) (r : Reader)
    → hold_pos (readers ++ (r ∷ [])) ≡ reader_pos r ∷ map unset readers
unfolding hold_pos
hold_pos-last readers r =
    ap (λ zs. fill_hold_pos zs (readers ++ (r ∷ []))) (zeros-last readers r)
    ∙ fill_hold_pos-last 0 (map unset readers) readers r
