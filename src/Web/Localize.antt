-- ===== src/Web/Localize.antt =====
-- The texts of errors in the language of the browser. A Chinese text is named by what it says.
use kaven_dns.Go.{to_lower, has_prefix, contains}
use kaven_dns.Prelude.{
  none, some, [], ◌∷◌, List, Text, Bool, ◌-◌, text_eq, map, not, length, if◌then◌else◌, get_elem?,
  codes, Text-discrete,
}
use kaven_dns.SystemInfo.Sampling.{white_fields}

-- Whether the header Accept-Language asks for Chinese.
unfoldable pub wants_chinese : Text → Bool
unfolding to_lower has_prefix
wants_chinese accept = has_prefix (to_lower accept) (codes "zh")

-- A text in English, or a Chinese one.
pub data Shown (A : Type 0) : Type 0 where
  english : Text → Shown A
  chinese : A → Shown A

pub data AuthText : Type 0 where
  -- "尝试次数过多，请在 … 秒后重试", with the seconds
  zh_locked : Text → AuthText
  -- "密码不正确"
  zh_incorrect : AuthText
  -- "无法创建登录会话"
  zh_no_session : AuthText

-- `parts[len(parts)-2]`
abbrev pub last_but_one : List Text → Text
last_but_one parts = elim (get_elem? parts (length parts - 2)) [ none ↦ codes "?" | some t ↦ t ]

unfoldable pub localize_auth_error : Text → Text → Shown AuthText
unfolding wants_chinese has_prefix white_fields Text-discrete
localize_auth_error accept value =
    if not (wants_chinese accept)
    then english value
    else if has_prefix value (codes "Too many attempts")
    then chinese (zh_locked (last_but_one (white_fields value)))
    else chinese
        (if text_eq value (codes "Incorrect password") then zh_incorrect else zh_no_session)

pub data ConfigText : Type 0 where
  -- "当前密码不正确"
  zh_current_password : ConfigText
  -- "新密码至少需要 6 个字符"
  zh_short_password : ConfigText
  -- "上游 DNS 配置无效"
  zh_upstream : ConfigText
  -- "监听地址无效"
  zh_address : ConfigText
  -- "端口必须在 1 到 65535 之间"
  zh_port : ConfigText
  -- "配置内容无效"
  zh_config : ConfigText

-- The first text of the table that the value contains.
unfoldable pub first_contained : {A : Type 0} → Text → List (Text × A) → A → A
unfolding contains
first_contained value [] other = other
first_contained value ((t, a) ∷ rest) other =
    let later = first_contained value rest other in if contains value t then a else later

abbrev pub config_table : List (Text × ConfigText)
config_table =
    (codes "current password", zh_current_password)
    ∷ (codes "at least 6", zh_short_password)
    ∷ (codes "upstream", zh_upstream)
    ∷ (codes "bind address", zh_address)
    ∷ (codes "Port", zh_port)
    ∷ (codes "port", zh_port)
    ∷ []

unfoldable pub localize_config_error : Text → Text → Shown ConfigText
unfolding wants_chinese first_contained
localize_config_error accept value =
    if not (wants_chinese accept)
    then english value
    else chinese (first_contained value config_table zh_config)

pub data RuleText : Type 0 where
  -- "至少需要一个域名", "每条规则最多 500 个域名", "域名格式无效"
  zh_no_domain zh_too_many zh_domain : RuleText
  -- "记录类型不支持", "规则模式不支持", "TTL 必须在 1 到 86400 之间"
  zh_type zh_mode zh_ttl : RuleText
  -- "上游 DNS 格式无效", "A 记录必须使用 IPv4 地址", "AAAA 记录必须使用 IPv6 地址"
  zh_rule_upstream zh_ipv4 zh_ipv6 : RuleText
  -- "CNAME 必须是一个主机名", "固定解析值不能为空"
  zh_hostname zh_no_answer : RuleText

abbrev pub rule_table : List (Text × RuleText)
rule_table =
    (codes "upstream", zh_rule_upstream)
    ∷ (codes "IPv4", zh_ipv4)
    ∷ (codes "IPv6", zh_ipv6)
    ∷ (codes "CNAME", zh_hostname)
    ∷ []

unfoldable pub rule_text : Text → RuleText
unfolding has_prefix contains first_contained
rule_text value =
    if has_prefix value (codes "At least one domain")
    then zh_no_domain
    else if has_prefix value (codes "At most 500")
    then zh_too_many
    else if has_prefix value (codes "Invalid domain")
    then zh_domain
    else if contains value (codes "record type")
    then zh_type
    else if contains value (codes "rule mode")
    then zh_mode
    else if has_prefix value (codes "TTL")
    then zh_ttl
    else first_contained value rule_table zh_no_answer

unfoldable pub localize_rule_problems : Text → List Text → List (Shown RuleText)
unfolding wants_chinese rule_text
localize_rule_problems accept problems =
    if not (wants_chinese accept)
    then map english problems
    else map (λ t. chinese (rule_text t)) problems
