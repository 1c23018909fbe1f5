-- ===== src/Witnesses/Search.antt =====
-- The theorem on the search for a device, with two handles.
use fwupd_efi.Firmware.Total.{Total, Any}
use fwupd_efi.OpenFile.{search_file}
use fwupd_efi.OpenFile.Finds.{IsSearched, search_file-IsSearched}
use fwupd_efi.Mock.Search.{searching, searching-Sound, searching-Shows, path_of_file, file_path}

search_file-IsSearched_example :
    Total Any (search_file searching path_of_file 0) (IsSearched searching-Shows path_of_file 0)
search_file-IsSearched_example =
    search_file-IsSearched searching-Shows path_of_file 0 searching-Sound file_path
