-- ===== src/Gateway/Router/Skills.antt =====
-- The commands for skills, `handleSkillCommand`.
use Prim.Native.String.{◌++◌ as ◌⧺◌}
use famclaw.Prelude.{ℕ, Bool, String, Option, none, some, List, [], ◌∷◌, if◌then◌else◌}
use famclaw.Prelude.Text.{codes, same_text, to_lower}
use famclaw.Gateway.Router.State.{Registry, Reply, join}

abbrev reply : String → String → Reply
reply action text = record { text = text; policy_action = action }

abbrev skill_failed : Reply
skill_failed = reply "error" "Skill command failed. Please try again."

unfoldable pub describe : List (String × String) → List String
describe [] = []
describe ((name, description) ∷ skills) = (name ⧺ (" — " ⧺ description)) ∷ describe skills

unfoldable pub list_skills : Option (List (String × String)) → Reply
unfolding describe join
list_skills none = skill_failed
list_skills (some []) = reply "skill" "No skills installed."
list_skills (some (s ∷ skills)) =
    reply "skill" ("Installed skills:\n" ⧺ join "\n" (describe (s ∷ skills)))

-- The answer to the command with its argument, of which `shown` is the text.
unfoldable pub with_argument :
    (List ℕ → String) → String → (List ℕ → Bool) → List (List ℕ) → String → Reply
with_argument shown usage act [] done = reply "skill" usage
with_argument shown usage act (name ∷ rest) done =
    if act name then reply "skill" (done ⧺ shown name) else skill_failed

unfoldable pub install_skill : Registry → List (List ℕ) → Reply
install_skill r [] = reply "skill" "Usage: skill install <nameOrPath>"
install_skill r (name ∷ rest) = elim (r.install name) [
  | none ↦ skill_failed
  | some installed ↦ reply "skill" ("Installed skill: " ⧺ installed)
]

-- `shown` makes a text of bytes, for the answers.
unfoldable pub handle_skill_command : (List ℕ → String) → Registry → List (List ℕ) → Reply
unfolding list_skills with_argument install_skill to_lower
handle_skill_command shown r (skill ∷ word ∷ rest) =
    let cmd = to_lower word in
    if same_text cmd (codes "list")
    then list_skills r.list
    else if same_text cmd (codes "install")
    then install_skill r rest
    else if same_text cmd (codes "enable")
    then with_argument shown "Usage: skill enable <name>" r.enable rest "Enabled skill: "
    else if same_text cmd (codes "disable")
    then with_argument shown "Usage: skill disable <name>" r.disable rest "Disabled skill: "
    else reply "skill"
        ("Unknown skill command: " ⧺ (shown word ⧺ ". Try: list, install, enable, disable"))
handle_skill_command shown r _ =
    reply "skill"
      "Skill management: skill list | skill install <name> | skill enable <name> | skill disable <name>"
