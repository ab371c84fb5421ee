-- ===== src/Server/Config/Console.antt =====
-- The console's path of internal/config/config.go.
use ratelimit_gateway.Base.{
  ◌≡◌, refl, String, Bool, true, false, if◌then◌else◌, str_eq, prepend, Bool-cases, inl, inr,
}
use ratelimit_gateway.Server.Config.{
  Environment, getenv, env, ends_with_slash, starts_with_slash, mounted, is_disabled,
  console_path_of,
}

-- A rooted subtree of the multiplexer.
abbrev pub IsSubtree : String → Type 0
IsSubtree path = (starts_with_slash path ≡ true) × (ends_with_slash path ≡ true)

ends_with_slash-prepend : (s : String) → ends_with_slash (prepend s "/") ≡ true
ends_with_slash-prepend String.[] = refl
ends_with_slash-prepend (String.◌∷◌ c String.[]) = refl
ends_with_slash-prepend (String.◌∷◌ c (String.◌∷◌ d s)) = ends_with_slash-prepend (String.◌∷◌ d s)

starts_with_slash-prepend :
    (s : String) → starts_with_slash s ≡ true → starts_with_slash (prepend s "/") ≡ true
starts_with_slash-prepend String.[] h = refl
starts_with_slash-prepend (String.◌∷◌ c s) h = h

closed-IsSubtree :
    (s : String)
    → starts_with_slash s ≡ true
    → IsSubtree (if ends_with_slash s then s else prepend s "/")
closed-IsSubtree s h = elim (Bool-cases (ends_with_slash s)) [
  | inl ends ↦ rw ends (h, ends)
  | inr open_end ↦ rw open_end (starts_with_slash-prepend s h, ends_with_slash-prepend s)
]

mounted-IsSubtree : (raw : String) → IsSubtree (mounted raw)
mounted-IsSubtree raw = elim (Bool-cases (starts_with_slash raw)) [
  | inl starts ↦ rw starts (closed-IsSubtree raw starts)
  | inr bare ↦ rw bare (closed-IsSubtree (prepend "/" raw) refl)
]

-- No console, or its path.
abbrev pub IsConsolePath : Bool → String → Type 0
IsConsolePath true path = path ≡ ""
IsConsolePath false path = IsSubtree path

env-enabled :
    (e : Environment) (fallback : String)
    → str_eq fallback "" ≡ false
    → str_eq (env e "GATEWAY_CONSOLE_PATH" fallback) "" ≡ false
env-enabled e fallback some_fallback =
    elim (Bool-cases (str_eq (getenv e "GATEWAY_CONSOLE_PATH") "")) [
      | inl absent ↦ rw absent some_fallback
      | inr there ↦ rw there there
    ]

pub console_path_of-IsConsolePath :
    (e : Environment) → IsConsolePath (is_disabled e) (console_path_of e)
unfolding console_path_of
console_path_of-IsConsolePath e = elim (Bool-cases (is_disabled e)) [
  | inl disabled ↦ rw disabled refl
  | inr enabled ↦
      rw (enabled, env-enabled e "/__gateway/" refl)
        (mounted-IsSubtree (env e "GATEWAY_CONSOLE_PATH" "/__gateway/"))
]
