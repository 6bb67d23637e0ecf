-- ===== src/Xcb.antt =====
-- xcb.c: connections, atoms and size hints of libxcb.
pub mod Errors
pub mod Atoms
use janetland.Prelude.{
  ℕ, zero, suc, ◌+◌, Bool, true, false, ◌||◌, Option, none, some, List, [], ◌∷◌, String, ◌==◌, ltb,
  str_eq, if◌then◌else◌,
}
use janetland.Prelude.Int.{ℤ, pos, negsuc}
use janetland.Janet.{
  Janet, Value, nil, abstract, tuple, cell, Result, ok, panic, ◌>>=◌ as bind, arg, address,
  fixarity, from_list,
}
use janetland.Headers.{Headers}
use janetland.KeyDefs.{terminated, name_at}
use janetland.Jl.{pointer_to_abs_obj, get_abs_obj_pointer}
use janetland.Action.{Action, ◌>>=◌, ◌>>◌, lift, give, reading, change}
use janetland.Wlr.{Getter, found, missing, keyword_of}

-- What `method_xcb_intern_atom_reply_t_get` reads of a `xcb_intern_atom_reply_t`.
pub record XcbInternAtomReply : Type 0 where
  pub atom : ℕ

-- What `method_xcb_generic_error_t_get` reads of a `xcb_generic_error_t`.
pub record XcbGenericError : Type 0 where
  pub error_code : ℕ

-- `xcb_size_hints_t`
pub record XcbSizeHints : Type 0 where
  pub flags : ℕ
  pub x : ℤ
  pub y : ℤ
  pub width : ℤ
  pub height : ℤ
  pub min_width : ℤ
  pub min_height : ℤ
  pub max_width : ℤ
  pub max_height : ℤ
  pub width_inc : ℤ
  pub height_inc : ℤ
  pub min_aspect_num : ℤ
  pub min_aspect_den : ℤ
  pub max_aspect_num : ℤ
  pub max_aspect_den : ℤ
  pub base_width : ℤ
  pub base_height : ℤ
  pub win_gravity : ℕ

unfoldable pub method_xcb_intern_atom_reply_get : Janet → XcbInternAtomReply → Value → Getter
method_xcb_intern_atom_reply_get J reply key =
    bind (keyword_of key)
      (λ kw. if str_eq kw "atom" then found (J.wrap_u64 reply.atom) else missing)

unfoldable pub method_xcb_generic_error_get : Janet → XcbGenericError → Value → Getter
method_xcb_generic_error_get J error key = bind (keyword_of key) (λ kw.
    if str_eq kw "error-code" then found (J.wrap_integer (pos error.error_code)) else missing)

unfoldable pub method_xcb_size_hints_get : Janet → XcbSizeHints → Value → Getter
method_xcb_size_hints_get J hints key = bind (keyword_of key) (λ kw.
    if str_eq kw "flags"
    then found (J.wrap_u64 hints.flags)
    else if str_eq kw "x"
    then found (J.wrap_integer hints.x)
    else if str_eq kw "y"
    then found (J.wrap_integer hints.y)
    else if str_eq kw "width"
    then found (J.wrap_integer hints.width)
    else if str_eq kw "height"
    then found (J.wrap_integer hints.height)
    else if str_eq kw "min-width"
    then found (J.wrap_integer hints.min_width)
    else if str_eq kw "min-height"
    then found (J.wrap_integer hints.min_height)
    else if str_eq kw "max-width"
    then found (J.wrap_integer hints.max_width)
    else if str_eq kw "max-height"
    then found (J.wrap_integer hints.max_height)
    else if str_eq kw "width-inc"
    then found (J.wrap_integer hints.width_inc)
    else if str_eq kw "height-inc"
    then found (J.wrap_integer hints.height_inc)
    else if str_eq kw "min-aspect-num"
    then found (J.wrap_integer hints.min_aspect_num)
    else if str_eq kw "min-aspect-den"
    then found (J.wrap_integer hints.min_aspect_den)
    else if str_eq kw "max-aspect-num"
    then found (J.wrap_integer hints.max_aspect_num)
    else if str_eq kw "max-aspect-den"
    then found (J.wrap_integer hints.max_aspect_den)
    else if str_eq kw "base-width"
    then found (J.wrap_integer hints.base_width)
    else if str_eq kw "base-height"
    then found (J.wrap_integer hints.base_height)
    else if str_eq kw "win-gravity"
    then found (J.wrap_u64 hints.win_gravity)
    else missing)

unfoldable pub xcb_conn_error_rows : Headers → List (String × ℕ)
xcb_conn_error_rows H =
    ("none", 0)
    ∷ ("error", H.const "XCB_CONN_ERROR")
    ∷ ("closed-ext-notsupported", H.const "XCB_CONN_CLOSED_EXT_NOTSUPPORTED")
    ∷ ("closed-mem-insufficient", H.const "XCB_CONN_CLOSED_MEM_INSUFFICIENT")
    ∷ ("closed-req-len-exceed", H.const "XCB_CONN_CLOSED_REQ_LEN_EXCEED")
    ∷ ("closed-parse-err", H.const "XCB_CONN_CLOSED_PARSE_ERR")
    ∷ ("closed-invalid-screen", H.const "XCB_CONN_CLOSED_INVALID_SCREEN")
    ∷ ("closed-fdpassing-failed", H.const "XCB_CONN_CLOSED_FDPASSING_FAILED")
    ∷ []

-- `__XCB_CONN_ERROR_DEFS_MAX`
abbrev pub conn_error_defs_max : ℕ
conn_error_defs_max = 7

-- The end of `cfun_xcb_connection_has_error`: the keyword of an error code.
unfoldable pub conn_error_keyword : Headers → ℤ → Result Value
unfolding xcb_conn_error_rows
conn_error_keyword H (negsuc n) = panic "unknown error code from xcb connection: %d"
conn_error_keyword H (pos err) =
    if ltb conn_error_defs_max err
    then panic "unknown error code from xcb connection: %d"
    else name_at (terminated (xcb_conn_error_rows H)) err

-- The functions of libxcb that xcb.c calls, on a state of its own; 0 is NULL.
pub record Libxcb (S : Type 0) : Type 0 where
  pub first_word : S → ℕ → ℕ
  pub connect : String → S → (ℕ × ℤ) × S
  pub disconnect : ℕ → S → S
  pub connection_has_error : S → ℕ → ℤ
  -- with the address that the cookie is written to
  pub new_abstract : S → ℕ × S
  pub intern_atom : ℕ → Bool → String → ℕ → S → S
  -- the reply and the error
  pub intern_atom_reply : ℕ → ℕ → S → (ℕ × ℕ) × S
  pub free : ℕ → S → S

abbrev pub object_or_nil : ℕ → String → Value
object_or_nil p at = if p == 0 then nil else pointer_to_abs_obj p at

module _ {S : Type 0} (J : Janet) (H : Headers) (X : Libxcb S) where
  abbrev pub connection : List Value → Action S ℕ
  connection argv s =
      (bind (arg argv 0) (λ v. get_abs_obj_pointer J (X.first_word s) v "xcb/xcb-connection-t"), s)

  unfoldable pub method_xcb_intern_atom_reply_gc : ℕ → Action S (Unit {0})
  method_xcb_intern_atom_reply_gc reply = change (X.free reply)

  unfoldable pub method_xcb_generic_error_gc : ℕ → Action S (Unit {0})
  method_xcb_generic_error_gc error = change (X.free error)

  unfoldable pub cfun_xcb_connect : List Value → Action S Value
  cfun_xcb_connect argv = do
    lift (fixarity argv 1)
    v ← lift (arg argv 0)
    display_name ← lift (J.getcstring v)
    (conn, screen_num) ← (λ s. (ok (X.connect display_name s).0, (X.connect display_name s).1))
    give (
        tuple (
          from_list
            (pointer_to_abs_obj conn "xcb/xcb-connection-t" ∷ J.wrap_integer screen_num ∷ [])))

  unfoldable pub cfun_xcb_disconnect : List Value → Action S Value
  cfun_xcb_disconnect argv = do
    lift (fixarity argv 1)
    conn ← connection argv
    change (X.disconnect conn)
    give nil

  unfoldable pub cfun_xcb_connection_has_error : List Value → Action S Value
  unfolding conn_error_keyword
  cfun_xcb_connection_has_error argv = do
    lift (fixarity argv 1)
    conn ← connection argv
    err ← reading (λ s. X.connection_has_error s conn)
    lift (conn_error_keyword H err)

  unfoldable pub cfun_xcb_intern_atom : List Value → Action S Value
  cfun_xcb_intern_atom argv = do
    lift (fixarity argv 3)
    conn ← connection argv
    exists_v ← lift (arg argv 1)
    only_if_exists ← lift (J.getboolean exists_v)
    name_v ← lift (arg argv 2)
    name ← lift (J.getcstring name_v)
    cookie ← (λ s. (ok (X.new_abstract s).0, (X.new_abstract s).1))
    change (X.intern_atom conn only_if_exists name cookie)
    give (abstract "xcb/intern-atom-cookie-t" (cell cookie))

  unfoldable pub cfun_xcb_intern_atom_reply : List Value → Action S Value
  cfun_xcb_intern_atom_reply argv = do
    lift (fixarity argv 2)
    conn ← connection argv
    cookie_v ← lift (arg argv 1)
    cookie ← lift (bind (J.getabstract "xcb/intern-atom-cookie-t" cookie_v) address)
    (reply, err) ←
        (λ s. (ok (X.intern_atom_reply conn cookie s).0, (X.intern_atom_reply conn cookie s).1))
    give (
        tuple (
          from_list (
            object_or_nil reply "xcb/xcb-intern-atom-reply-t"
            ∷ object_or_nil err "xcb/xcb-generic-error-t"
            ∷ [])))
