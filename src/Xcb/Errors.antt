-- ===== src/Xcb/Errors.antt =====
-- The error codes of a connection against the table of their names.
use janetland.Prelude.{ℕ, ◌≤◌, ◌≡◌, refl, ltb, false, String, arith}
use janetland.Prelude.Int.{pos}
use janetland.Janet.{Janet, keyword, ok}
use janetland.Headers.{Headers}
use janetland.KeyDefs.{terminated, get_key_def, key_def_count}
use janetland.KeyDefs.Scan.{Distinct, CountsFrom, name_at-get_key_def}
use janetland.Xcb.{xcb_conn_error_rows, conn_error_keyword, conn_error_defs_max}

-- `XCB_CONN_ERROR` is 1, and the other codes follow in the order of the table.
abbrev pub HasErrorCodes : Headers → Type 0
unfolding xcb_conn_error_rows
HasErrorCodes H = CountsFrom 0 (xcb_conn_error_rows H)

rows-Distinct : (H : Headers) → Distinct (xcb_conn_error_rows H)
unfolding xcb_conn_error_rows
rows-Distinct H = (refl, (refl, (refl, (refl, (refl, (refl, (refl, (refl, tt))))))))

key_def_count-rows : (H : Headers) → key_def_count (terminated (xcb_conn_error_rows H)) ≡ 8
unfolding xcb_conn_error_rows key_def_count
key_def_count-rows H = refl

-- With the error codes of libxcb, which count up from 0 in the order of the table: a code from 0 to 7
-- gives a keyword, which the table maps back to the code.
pub conn_error_keyword-get_key_def :
    (J : Janet) (H : Headers) (err : ℕ)
    → HasErrorCodes H
    → err ≤ conn_error_defs_max
    → (n : String) × (conn_error_keyword H (pos err) ≡ ok (keyword n))
      × (get_key_def J (keyword n) (terminated (xcb_conn_error_rows H)) ≡ ok err)
unfolding conn_error_keyword
conn_error_keyword-get_key_def J H err codes h =
    let count = key_def_count-rows H in
    let (n, name, back) =
      name_at-get_key_def J (xcb_conn_error_rows H) err (rows-Distinct H) codes (omega arith) in
    let low : ltb conn_error_defs_max err ≡ false = ground arith in (n, rw low name, back)
