-- ===== src/Scans/Tables/Rows.antt =====
-- Reading a scan that was written.
use bandcamp_curate.Base.{ℕ, List, [], ◌∷◌, ◌≡◌, refl, Option, none, some, arith}
use bandcamp_curate.Scans.Tables.{Scan, get_scan, update_scan}

abbrev pub map_scan : (Scan → Scan) → Option Scan → Option Scan
map_scan f none = none
map_scan f (some s) = some (f s)

-- A write that keeps ids is what the next read of the row sees.
pub get_scan-update_scan :
    (scan_id : ℕ) (f : Scan → Scan) (scans : List Scan)
    → ((s : Scan) → (f s).id ≡ s.id)
    → get_scan scan_id (update_scan scan_id f scans) ≡ map_scan f (get_scan scan_id scans)
unfolding update_scan get_scan
get_scan-update_scan scan_id f [] keep = refl
get_scan-update_scan scan_id f (s ∷ scans) keep =
    ground (arith, keep s, get_scan-update_scan scan_id f scans keep)
