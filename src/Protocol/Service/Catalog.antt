-- ===== src/Protocol/Service/Catalog.antt =====
-- src/core/ProtocolParser.cpp, the catalog of `identifyService`, in its order.
use netprobe_cpp.Base.{List, [], ◌∷◌, Bytes, codes}
use Prim.Native.String.{String}

pub record Pattern : Type 0 where
  pub needle : Bytes
  pub label : Bytes

pattern_of : String → String → Pattern
pattern_of needle label = record { needle = codes needle; label = codes label }

unfoldable pub catalog : List Pattern
unfolding pattern_of
catalog =
    pattern_of "mozilla.cloudflare-dns.com" "DNS-over-HTTPS"
    ∷ pattern_of "cloudflare-dns.com" "DNS-over-HTTPS"
    ∷ pattern_of "one.one.one.one" "DNS-over-HTTPS"
    ∷ pattern_of "dns.google" "DNS-over-HTTPS"
    ∷ pattern_of "dns.quad9.net" "DNS-over-HTTPS"
    ∷ pattern_of "doh.opendns.com" "DNS-over-HTTPS"
    ∷ pattern_of "dns.nextdns.io" "DNS-over-HTTPS"
    ∷ pattern_of "doh.cleanbrowsing.org" "DNS-over-HTTPS"
    ∷ pattern_of "dns.adguard" "DNS-over-HTTPS"
    ∷ pattern_of "doh.dns.sb" "DNS-over-HTTPS"
    ∷ pattern_of "youtube" "YouTube"
    ∷ pattern_of "googlevideo" "YouTube"
    ∷ pattern_of "ytimg" "YouTube"
    ∷ pattern_of "gstatic" "Google"
    ∷ pattern_of "googleusercontent" "Google"
    ∷ pattern_of "googleapis" "Google"
    ∷ pattern_of "google." "Google"
    ∷ pattern_of "doubleclick" "Google Ads"
    ∷ pattern_of "netflix" "Netflix"
    ∷ pattern_of "nflxvideo" "Netflix"
    ∷ pattern_of "twitch" "Twitch"
    ∷ pattern_of "ttvnw" "Twitch"
    ∷ pattern_of "spotify" "Spotify"
    ∷ pattern_of "scdn.co" "Spotify"
    ∷ pattern_of "hulu" "Hulu"
    ∷ pattern_of "disney" "Disney+"
    ∷ pattern_of "primevideo" "Prime Video"
    ∷ pattern_of "discord" "Discord"
    ∷ pattern_of "discordapp" "Discord"
    ∷ pattern_of "slack.com" "Slack"
    ∷ pattern_of "slack-edge" "Slack"
    ∷ pattern_of "telegram" "Telegram"
    ∷ pattern_of "whatsapp" "WhatsApp"
    ∷ pattern_of "facebook" "Facebook"
    ∷ pattern_of "fbcdn" "Facebook"
    ∷ pattern_of "instagram" "Instagram"
    ∷ pattern_of "cdninstagram" "Instagram"
    ∷ pattern_of "twitter" "X (Twitter)"
    ∷ pattern_of "twimg" "X (Twitter)"
    ∷ pattern_of "x.com" "X (Twitter)"
    ∷ pattern_of "tiktok" "TikTok"
    ∷ pattern_of "tiktokcdn" "TikTok"
    ∷ pattern_of "reddit" "Reddit"
    ∷ pattern_of "redditstatic" "Reddit"
    ∷ pattern_of "linkedin" "LinkedIn"
    ∷ pattern_of "signal.org" "Signal"
    ∷ pattern_of "github" "GitHub"
    ∷ pattern_of "githubusercontent" "GitHub"
    ∷ pattern_of "gitlab" "GitLab"
    ∷ pattern_of "bitbucket" "Bitbucket"
    ∷ pattern_of "npmjs" "npm"
    ∷ pattern_of "jsdelivr" "jsDelivr"
    ∷ pattern_of "cloudflare" "Cloudflare"
    ∷ pattern_of "akamai" "Akamai"
    ∷ pattern_of "fastly" "Fastly"
    ∷ pattern_of "amazonaws" "AWS"
    ∷ pattern_of "awsstatic" "AWS"
    ∷ pattern_of "azureedge" "Azure"
    ∷ pattern_of "windows.net" "Azure"
    ∷ pattern_of "azure.com" "Azure"
    ∷ pattern_of "digitalocean" "DigitalOcean"
    ∷ pattern_of "vercel" "Vercel"
    ∷ pattern_of "netlify" "Netlify"
    ∷ pattern_of "anthropic" "Anthropic"
    ∷ pattern_of "openai" "OpenAI"
    ∷ pattern_of "microsoft" "Microsoft"
    ∷ pattern_of "msftncsi" "Microsoft"
    ∷ pattern_of "office.com" "Microsoft 365"
    ∷ pattern_of "office365" "Microsoft 365"
    ∷ pattern_of "outlook" "Outlook"
    ∷ pattern_of "live.com" "Microsoft"
    ∷ pattern_of "bing.com" "Bing"
    ∷ pattern_of "xboxlive" "Xbox Live"
    ∷ pattern_of "xbox.com" "Xbox Live"
    ∷ pattern_of "skype" "Skype"
    ∷ pattern_of "teams.microsoft" "Microsoft Teams"
    ∷ pattern_of "apple.com" "Apple"
    ∷ pattern_of "icloud" "iCloud"
    ∷ pattern_of "itunes.apple" "iTunes"
    ∷ pattern_of "mzstatic" "Apple"
    ∷ pattern_of "steampowered" "Steam"
    ∷ pattern_of "steamstatic" "Steam"
    ∷ pattern_of "steamcommunity" "Steam"
    ∷ pattern_of "epicgames" "Epic Games"
    ∷ pattern_of "riotgames" "Riot Games"
    ∷ pattern_of "battle.net" "Battle.net"
    ∷ pattern_of "playstation" "PlayStation"
    ∷ pattern_of "nintendo" "Nintendo"
    ∷ pattern_of "amazon" "Amazon"
    ∷ pattern_of "ebay" "eBay"
    ∷ pattern_of "shopify" "Shopify"
    ∷ pattern_of "zoom.us" "Zoom"
    ∷ pattern_of "zoomgov" "Zoom"
    ∷ pattern_of "webex" "Webex"
    ∷ pattern_of "meet.google" "Google Meet"
    ∷ pattern_of "wikipedia" "Wikipedia"
    ∷ pattern_of "wikimedia" "Wikipedia"
    ∷ pattern_of "mozilla" "Mozilla"
    ∷ pattern_of "firefox" "Firefox"
    ∷ pattern_of "duckduckgo" "DuckDuckGo"
    ∷ pattern_of "protonmail" "Proton"
    ∷ pattern_of "proton.me" "Proton"
    ∷ []
