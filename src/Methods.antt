-- ===== src/Methods.antt =====
-- The request methods: MS_HTTP_METHOD_MAP of src/ms_server.h, and the two functions of
-- src/ms_common.c that go through it.
mod Tests
pub mod RoundTrip
use Prim.Native.String.{String}
use text.Mathlib.Text.{◌==◌}
use libms.Base.{ℕ, zero, suc, List, [], ◌∷◌, if◌then◌else◌}

-- MS_HTTP_METHOD_MAP: the numbers of the methods and how they are written.
abbrev pub method_map : List (ℕ × String)
method_map =
    (0, "DELETE")
    ∷ (1, "GET")
    ∷ (2, "HEAD")
    ∷ (3, "POST")
    ∷ (4, "PUT")
    ∷ (5, "CONNECT")
    ∷ (6, "OPTIONS")
    ∷ (7, "TRACE")
    ∷ (8, "COPY")
    ∷ (9, "LOCK")
    ∷ (10, "MKCOL")
    ∷ (11, "MOVE")
    ∷ (12, "PROPFIND")
    ∷ (13, "PROPPATCH")
    ∷ (14, "SEARCH")
    ∷ (15, "UNLOCK")
    ∷ (16, "BIND")
    ∷ (17, "REBIND")
    ∷ (18, "UNBIND")
    ∷ (19, "ACL")
    ∷ (20, "REPORT")
    ∷ (21, "MKACTIVITY")
    ∷ (22, "CHECKOUT")
    ∷ (23, "MERGE")
    ∷ (24, "M-SEARCH")
    ∷ (25, "NOTIFY")
    ∷ (26, "SUBSCRIBE")
    ∷ (27, "UNSUBSCRIBE")
    ∷ (28, "PATCH")
    ∷ (29, "PURGE")
    ∷ (30, "MKCALENDAR")
    ∷ (31, "LINK")
    ∷ (32, "UNLINK")
    ∷ (33, "SOURCE")
    ∷ (100, "UNKNOWN")
    ∷ []

-- MS_HTTP_UNKNOWN
abbrev pub http_unknown : ℕ
http_unknown = 100

-- `ELEM_AT` of `method_strings`: the entry at an index, or a default behind the last.
abbrev pub elem_at : List (ℕ × String) → ℕ → String → String
elem_at [] i v = v
elem_at ((num, string) ∷ rest) zero v = string
elem_at ((num, string) ∷ rest) (suc i) v = elem_at rest i v

unfoldable pub ms_http_method_str : ℕ → String
ms_http_method_str m = elem_at method_map m "<unknown>"

-- The tests of `ms_http_method_enum`, in the order of the table; `mg_strcmp` gives 0 for equal texts.
abbrev pub enum_from : List (ℕ × String) → String → ℕ
enum_from [] str = http_unknown
enum_from ((num, string) ∷ rest) str = if str == string then num else enum_from rest str

unfoldable pub ms_http_method_enum : String → ℕ
ms_http_method_enum str = enum_from method_map str
