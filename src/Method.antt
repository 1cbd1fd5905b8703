-- ===== src/Method.antt =====
-- src/webdav/method.rs: the methods that the server knows, from and to their names.
use rshs.Common.{
  Bool-cases, Bytes, Option, ap, bytes_eq, bytes_eq_iff, bytes_key, codes, if◌then◌else◌, inl, inr,
  none, refl, some, ◌==◌, ◌↔◌, ◌∙◌, ◌≡◌,
}
use rshs.FilePath.{path_key}

pub data Method : Type 0 where
  head get_method put_method patch delete options propfind proppatch : Method
  mkcol copy_method move_method lock_method unlock_method report : Method

unfoldable pub as_str : Method → Bytes
as_str head = codes "HEAD"
as_str get_method = codes "GET"
as_str put_method = codes "PUT"
as_str patch = codes "PATCH"
as_str delete = codes "DELETE"
as_str options = codes "OPTIONS"
as_str propfind = codes "PROPFIND"
as_str proppatch = codes "PROPPATCH"
as_str mkcol = codes "MKCOL"
as_str copy_method = codes "COPY"
as_str move_method = codes "MOVE"
as_str lock_method = codes "LOCK"
as_str unlock_method = codes "UNLOCK"
as_str report = codes "REPORT"

-- `None` is `InvalidMethod`.
webdav_method : Bytes → Option Method
webdav_method name =
    if name == codes "PROPFIND"
    then some propfind
    else if name == codes "PROPPATCH"
    then some proppatch
    else if name == codes "MKCOL"
    then some mkcol
    else if name == codes "COPY"
    then some copy_method
    else if name == codes "MOVE"
    then some move_method
    else if name == codes "LOCK"
    then some lock_method
    else if name == codes "UNLOCK"
    then some unlock_method
    else if name == codes "REPORT"
    then some report
    else none

unfoldable pub from_http_method : Bytes → Option Method
unfolding webdav_method
from_http_method name =
    if name == codes "GET"
    then some get_method
    else if name == codes "HEAD"
    then some head
    else if name == codes "PUT"
    then some put_method
    else if name == codes "PATCH"
    then some patch
    else if name == codes "DELETE"
    then some delete
    else if name == codes "OPTIONS"
    then some options
    else webdav_method name

from-as_str : (m : Method) → from_http_method (as_str m) ≡ some m
unfolding from_http_method as_str bytes_eq
from-as_str head = refl
from-as_str get_method = refl
from-as_str put_method = refl
from-as_str patch = refl
from-as_str delete = refl
from-as_str options = refl
from-as_str propfind = refl
from-as_str proppatch = refl
from-as_str mkcol = refl
from-as_str copy_method = refl
from-as_str move_method = refl
from-as_str lock_method = refl
from-as_str unlock_method = refl
from-as_str report = refl

-- one rung of the ladder of tests
rung :
    (name : Bytes) (text : Bytes) (this m : Method) (rest : Option Method)
    → text ≡ as_str this
    → (rest ≡ some m → name ≡ as_str m)
    → (if name == text then some this else rest) ≡ some m
    → name ≡ as_str m
rung name text this m rest spelled otherwise h = elim (Bool-cases (name == text)) [
  | inl same ↦
      let chosen : some this ≡ some m = rw (← h, same) refl in
      let this_m : this ≡ m = cc in (bytes_eq_iff name text).0 same ∙ spelled ∙ ap as_str this_m
  | inr other ↦ otherwise (let chosen : rest ≡ some m = rw (← h, other) refl in chosen)
]

webdav-to_str : (name : Bytes) (m : Method) → webdav_method name ≡ some m → name ≡ as_str m
unfolding webdav_method as_str
webdav-to_str name m = rung name _ propfind m _ refl (
    rung name _ proppatch m _ refl (
      rung name _ mkcol m _ refl (
        rung name _ copy_method m _ refl (
          rung name _ move_method m _ refl (
            rung name _ lock_method m _ refl
              (rung name _ unlock_method m _ refl (rung name _ report m _ refl (λ h. cc))))))))

-- A name is recognised as a method exactly when it is that method's name.
pub from_http_method_iff :
    (name : Bytes) (m : Method) → (from_http_method name ≡ some m) ↔ (name ≡ as_str m)
unfolding from_http_method as_str
from_http_method_iff name m = (
  rung name _ get_method m _ refl (
      rung name _ head m _ refl (
        rung name _ put_method m _ refl (
          rung name _ patch m _ refl
            (rung name _ delete m _ refl (rung name _ options m _ refl (webdav-to_str name m)))))),
  λ e. rw e (from-as_str m),
)
