-- ===== src/Handlers/Json/Asked.antt =====
-- The list of tasks for one url: the parameter `url` of the request.
use libms.Base.{
  ℕ, zero, suc, ◌-◌, ◌≤◌, ◌<◌, ◌≡◌, refl, ap, ◌∙◌, Bool, false, List, [], ◌∷◌, ◌++◌, take, length,
  leb, arith, All, All-map, length-append,
}
use libms.Storage.{Storage}
use libms.Task.{Task}
use libms.Handlers.{is_equal}
use libms.Handlers.Json.{Texts, bytes, padding, url_str, is_asked_for, task_list_response}
use libms.Handlers.Json.Whole.{selected, list_text, task_list_response-list_text}

length-padding : (n : ℕ) → length (padding n) ≡ n
length-padding zero = refl
length-padding (suc n) = ap suc (length-padding n)

length-url_str_le :
    (request_size : ℕ) (url : List ℕ) → request_size - 1 ≤ length (url_str request_size url)
unfolding url_str
length-url_str_le n url =
    omega
      (arith, length-append url (padding (n - 1 - length url)), length-padding (n - 1 - length url))

is_equal-longer : (s1 s2 : List ℕ) → length s2 < length s1 → is_equal s1 s2 ≡ false
is_equal-longer s1 s2 longer =
    let not : leb (length s1) (length s2) ≡ false = ground arith in rw not refl

is_asked_for-shorter :
    (request_size : ℕ) (url task_url : List ℕ)
    → 0 < length url
    → length task_url < request_size - 1
    → is_asked_for request_size url task_url ≡ false
unfolding is_asked_for
is_asked_for-shorter n url task_url has shorter =
    let some_url : leb (length url) 0 ≡ false = ground arith in
    let other : is_equal (url_str n url) task_url ≡ false =
      is_equal-longer (url_str n url) task_url (omega (arith, length-url_str_le n url)) in
    rw (some_url, other) refl

selected-none :
    {S : Type 0} (asked : List ℕ → Bool) (url_text : ℕ → List ℕ) (tasks : List (Task S))
    → All (λ t. asked (url_text t.url) ≡ false) tasks
    → selected asked url_text tasks ≡ []
selected-none asked url_text [] all = refl
selected-none asked url_text (t ∷ tasks) (h, all) = rw h (selected-none asked url_text tasks all)

module _ {S : Type 0} (ops : Storage S) (texts : Texts S) (capacity : ℕ) where
  -- A request for the tasks of a url is answered with an empty array, whatever the url and the
  -- tasks, if the urls of the tasks are shorter than the array for the parameter less one byte.
  pub task_list_response-asked :
      (request_size : ℕ) (url : List ℕ) (tasks : List (Task S))
      → 0 < length url
      → All (λ t. length (texts.url_text t.url) < request_size - 1) tasks
      → task_list_response ops texts capacity request_size url tasks
        ≡ take (capacity - 1) (bytes "[" ++ bytes "]")
  task_list_response-asked request_size url tasks has shorter =
      let asked : List ℕ → Bool = is_asked_for request_size url in
      let others : selected asked texts.url_text tasks ≡ [] =
        selected-none asked texts.url_text tasks (
          All-map tasks (λ t. is_asked_for-shorter request_size url (texts.url_text t.url) has)
            shorter) in
      task_list_response-list_text ops texts capacity request_size url tasks
      ∙ ap (λ ts. take (capacity - 1) (list_text ops texts ts)) others
