-- ===== src/AbilityCache/Tests.antt =====
-- Tests of the cache of abilities.
use replication_backend.Prelude.{
  String, true, Option, none, some, List, [], ◌∷◌, ◌==◌, ◌≡◌, refl, if◌then◌else◌, lookup,
}
use replication_backend.Json.{Json, str, arr, cons, nil}
use replication_backend.Casl.{Casl, UserInfo}
use replication_backend.RulesConfig.{RulesConfig, bootstrap_permissions, normalize_section_keys}
use replication_backend.Rules.Updates.{deleted}
use replication_backend.AbilityCache.{
  Texts, Abilities, ability_cache_key, build_ability, get_ability_for,
}
use replication_backend.AbilityCache.Current.{
  Operation, asked, reported, operate_all, AllRead, get_ability_for-build_ability,
}
use replication_backend.Fixtures.{by_name, teacher, editor}

-- An ability is the rules that it was built from.
abbrev rules_only : Casl
rules_only = record {
  Ability = Json;
  create_ability = λ rules detect. rules;
  can = λ ability action subject. true;
  permitted_fields_of = λ ability action doc. [];
}

-- Users are told apart by their names, and configurations by whether they have a section for teachers.
abbrev teachers_read : RulesConfig
teachers_read = ("user_app", arr (cons (str "read") nil)) ∷ []

abbrev texts : Texts
texts = record {
  of_user = λ user. user.name;
  of_config =
      λ config. elim (lookup "user_app" config) [ none ↦ "bootstrap" | some rules ↦ "teachers" ];
  db = "app";
}

abbrev parse_user : String → Option UserInfo
parse_user text =
    if text == "teacher" then some teacher else if text == "editor" then some editor else none

abbrev parse_config : String → RulesConfig
parse_config text = if text == "teachers" then teachers_read else bootstrap_permissions

abbrev loaded : Abilities rules_only by_name texts
loaded = record {
  rules = record { permission = some teachers_read; changes_announced = [] };
  ability_cache = [];
}

abbrev operations : List Operation
operations = asked (some teacher) ∷ reported deleted ∷ asked (some editor) ∷ asked none ∷ []

read_back : AllRead rules_only by_name texts parse_user parse_config operations (some teachers_read)
unfolding ability_cache_key lookup normalize_section_keys
read_back = (refl, (refl, (refl, (refl, refl))))

reads_teacher : parse_user (ability_cache_key texts.of_user (some teacher)) ≡ some teacher
unfolding ability_cache_key
reads_teacher = refl

get_ability_for-build_ability_example :
    (get_ability_for rules_only by_name texts
      (some teacher)
      (operate_all rules_only by_name texts operations loaded)).0
    ≡ build_ability rules_only by_name texts
        (operate_all rules_only by_name texts operations loaded).rules.permission
        (some teacher)
get_ability_for-build_ability_example =
    get_ability_for-build_ability rules_only by_name texts parse_user parse_config operations
      (some teacher) loaded refl read_back reads_teacher
