-- ===== src/Rest/Endpoints.antt =====
-- marc_rest_client.cpp: the addresses that requests go to.
use marc_fs.Base.{◌++◌, Text, codes}

abbrev pub main_domain : Text
main_domain = codes "https://mail.ru"

abbrev pub auth_domain : Text
auth_domain = codes "https://auth.mail.ru"

abbrev pub cloud_domain : Text
cloud_domain = codes "https://cloud.mail.ru"

abbrev pub auth_endpoint : Text
auth_endpoint = auth_domain ++ codes "/jsapi/auth"

abbrev pub shard_endpoint : Text
shard_endpoint = cloud_domain ++ codes "/api/v2/dispatcher"

abbrev pub folder_endpoint : Text
folder_endpoint = cloud_domain ++ codes "/api/v2/folder"

abbrev pub file_endpoint : Text
file_endpoint = cloud_domain ++ codes "/api/v2/file"

abbrev pub space_endpoint : Text
space_endpoint = cloud_domain ++ codes "/api/v2/user/space"

abbrev pub add_file_endpoint : Text
add_file_endpoint = file_endpoint ++ codes "/add"

abbrev pub publish_file_endpoint : Text
publish_file_endpoint = file_endpoint ++ codes "/publish"

abbrev pub remove_file_endpoint : Text
remove_file_endpoint = file_endpoint ++ codes "/remove"

abbrev pub rename_file_endpoint : Text
rename_file_endpoint = file_endpoint ++ codes "/rename"

abbrev pub move_file_endpoint : Text
move_file_endpoint = file_endpoint ++ codes "/move"

abbrev pub add_folder_endpoint : Text
add_folder_endpoint = folder_endpoint ++ codes "/add"
