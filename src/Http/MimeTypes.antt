-- ===== src/Http/MimeTypes.antt =====
-- src/GUI/MimeTypes.cpp.
use sec_mon.Prelude.{List, [], ◌∷◌, if◌then◌else◌}
use sec_mon.Prelude.Text.{Bytes, codes, bytes_eq}

-- `mappings`, without the entry that marks its end.
pub mappings : List (Bytes × Bytes)
mappings =
    (codes "gif", codes "image/gif")
    ∷ (codes "htm", codes "text/html")
    ∷ (codes "html", codes "text/html")
    ∷ (codes "json", codes "application/json")
    ∷ (codes "jpg", codes "image/jpeg")
    ∷ (codes "png", codes "image/png")
    ∷ (codes "css", codes "text/css")
    ∷ (codes "mjpeg", codes "multipart/x-mixed-replace;boundary=<>")
    ∷ []

-- The loop over the table.
unfoldable pub search_mappings : List (Bytes × Bytes) → Bytes → Bytes
search_mappings [] extension = codes "text/plain"
search_mappings ((e, t) ∷ ms) extension =
    if bytes_eq e extension then t else search_mappings ms extension

unfoldable pub extension_to_type : Bytes → Bytes
unfolding search_mappings mappings bytes_eq
extension_to_type = search_mappings mappings
