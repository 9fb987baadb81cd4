-- ===== src/Upload/Progress/Bounds.antt =====
-- Bounds on the displayed progress: it stays within the file, and never falls.
use gothrough.Base.{◌≤◌, ◌≡◌, Option, none, some, arith}
use gothrough.Upload.Types.{UploadState, pending, success, UploadSession, UploadItem}
use gothrough.Upload.Progress.{loaded_of, recalc_loaded_bytes}

loaded_of-le :
    (st : UploadState) (o : Option UploadSession) (item : UploadItem)
    → loaded_of st o item ≤ item.file.size
loaded_of-le success o item = omega arith
loaded_of-le pending none item = omega arith
loaded_of-le pending (some s) item = omega arith
loaded_of-le _ none item = omega arith
loaded_of-le _ (some s) item = omega arith

-- The displayed bytes never pass the file's size.
pub recalc_loaded_bytes-le :
    (item : UploadItem) → (recalc_loaded_bytes item).loaded_bytes ≤ item.file.size
unfolding recalc_loaded_bytes
recalc_loaded_bytes-le item = loaded_of-le item.state item.session item

loaded_of-ge :
    (st : UploadState) (o : Option UploadSession) (item : UploadItem) (session : UploadSession)
    → o ≡ some session
    → item.loaded_bytes ≤ item.file.size
    → item.loaded_bytes ≤ loaded_of st o item
loaded_of-ge success o item session e h = h
loaded_of-ge pending none item session e h = ground arith
loaded_of-ge pending (some s) item session e h = omega arith
loaded_of-ge _ none item session e h = ground arith
loaded_of-ge _ (some s) item session e h = omega arith

-- While there is a session, a new reading never lowers the displayed bytes.
pub recalc_loaded_bytes-ge :
    (item : UploadItem) (session : UploadSession)
    → item.session ≡ some session
    → item.loaded_bytes ≤ item.file.size
    → item.loaded_bytes ≤ (recalc_loaded_bytes item).loaded_bytes
unfolding recalc_loaded_bytes
recalc_loaded_bytes-ge item session e h = loaded_of-ge item.state item.session item session e h
